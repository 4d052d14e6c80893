-- ===== src/Sync/Latest.antt =====
-- What the choice of the latest wallet head gives.
use rgb.Prelude.{
  ◌≤◌, ◌≡◌, refl, Option, none, some, List, [], ◌∷◌, ◌==◌, ltb, ok, ◌>>=◌, after_ok, arith, All,
  ◌∙◌, subst, ◌⊎◌, inl, inr, Bool-cases,
}
use Prim.{⊥}
use rgb.Prelude.Bytes.{ByteString, bytes_eq→eq}
use rgb.Sync.{WalletHead, validate, hash, check_conflict, later_of, select_from, select_latest}

module _ (sha256 : ByteString → ByteString) where
  -- The other head is not later, and at the same sequence it is the same payload.
  pub record Yields (latest other : WalletHead) : Type 0 where
    pub order : other.seq ≤ latest.seq
    pub same : other.seq ≡ latest.seq → hash sha256 other ≡ hash sha256 latest

  Yields-refl : (h : WalletHead) → Yields h h
  Yields-refl h = record { order = omega arith; same = λ _. refl }

  Yields-trans : (a b c : WalletHead) → Yields b a → Yields c b → Yields c a
  Yields-trans a b c p q = record {
    order = omega (arith, p.order, q.order);
    same = λ e.
        p.same (omega (arith, p.order, q.order, e)) ∙ q.same (omega (arith, p.order, q.order, e));
  }

  check_conflict-same :
      (candidate latest : WalletHead)
      → check_conflict sha256 candidate latest ≡ ok tt
      → hash sha256 candidate ≡ hash sha256 latest
  unfolding check_conflict
  check_conflict-same candidate latest h = after_ok (hash sha256 candidate) _ h λ left l h1.
      after_ok (hash sha256 latest) _ h1 λ right r h2.
        let same : left ≡ right = bytes_eq→eq left right (ground (arith, h2)) in cc (l, r, same)

  later_of-Yields :
      (candidate latest next : WalletHead)
      → later_of sha256 candidate (some latest) ≡ ok next
      → Yields next candidate × Yields next latest × ((next ≡ candidate) ⊎ (next ≡ latest))
  unfolding later_of
  later_of-Yields candidate latest next h = elim (Bool-cases (ltb latest.seq candidate.seq)) [
    | inl newer ↦
        (let same : candidate ≡ next = ground (arith, newer) in
          subst (λ n. Yields n candidate × Yields n latest × ((n ≡ candidate) ⊎ (n ≡ latest))) same
            (
              Yields-refl candidate,
              record {
                order = ground (arith, newer);
                same = λ e. absurd (ground (arith, newer, e));
              },
              inl refl,
            ))
    | inr not_newer ↦ elim (Bool-cases (candidate.seq == latest.seq)) [
      | inl equal ↦
          (let step : (check_conflict sha256 candidate latest >>= λ _. ok latest) ≡ ok next =
              ground (arith, not_newer, equal) in
            after_ok (check_conflict sha256 candidate latest) _ step λ _ checked done.
              let same : latest ≡ next = cc in
              subst (λ n. Yields n candidate × Yields n latest × ((n ≡ candidate) ⊎ (n ≡ latest)))
                same
                (
                  record {
                    order = ground (arith, equal);
                    same = λ _. check_conflict-same candidate latest checked;
                  },
                  Yields-refl latest,
                  inr refl,
                ))
      | inr older ↦
          (let same : latest ≡ next = ground (arith, not_newer, older) in
            subst (λ n. Yields n candidate × Yields n latest × ((n ≡ candidate) ⊎ (n ≡ latest)))
              same
              (
                record {
                  order = ground (arith, not_newer);
                  same = λ e. absurd (ground (arith, older, e));
                },
                Yields-refl latest,
                inr refl,
              ))
    ]
  ]

  abbrev pub Listed : WalletHead → List WalletHead → Type 0
  Listed h [] = ⊥
  Listed h (x ∷ xs) = (h ≡ x) ⊎ Listed h xs

  -- What the selection promises: the choice is one of the candidates, belongs to the wallet, and
  -- every candidate yields to it.
  pub record IsLatest (wallet_id : ByteString) (candidates : List WalletHead) (latest : WalletHead)
      : Type 0 where
    pub listed : Listed latest candidates
    pub all_valid : All (λ c. validate wallet_id c ≡ ok tt) candidates
    pub highest : All (Yields latest) candidates

  record Rest (wallet_id : ByteString) (start : WalletHead) (rest : List WalletHead)
      (r : Option WalletHead) : Type 0 where
    latest : WalletHead
    chosen : r ≡ some latest
    from : (latest ≡ start) ⊎ Listed latest rest
    first : Yields latest start
    all_valid : All (λ c. validate wallet_id c ≡ ok tt) rest
    highest : All (Yields latest) rest

  select_from-Rest :
      (wallet_id : ByteString) (start : WalletHead) (rest : List WalletHead) (r : Option WalletHead)
      → select_from sha256 wallet_id (some start) rest ≡ ok r
      → Rest wallet_id start rest r
  unfolding select_from
  select_from-Rest wallet_id start [] r h = record {
    latest = start;
    chosen = cc;
    from = inl refl;
    first = Yields-refl start;
    all_valid = tt;
    highest = tt;
  }
  select_from-Rest wallet_id start (c ∷ rest) r h =
      after_ok (validate wallet_id c) _ h λ _ valid h1.
        after_ok (later_of sha256 c (some start)) _ h1 λ next here h2.
          let later = select_from-Rest wallet_id next rest r h2 in
          let step = later_of-Yields c start next here in
          record {
            latest = later.latest;
            chosen = later.chosen;
            from = origin next later.latest (step.2) later.from;
            first = Yields-trans start next later.latest step.1 later.first;
            all_valid = (valid, later.all_valid);
            highest = (Yields-trans c next later.latest step.0 later.first, later.highest);
          }
    where
      origin :
          (next latest : WalletHead)
          → (next ≡ c) ⊎ (next ≡ start)
          → (latest ≡ next) ⊎ Listed latest rest
          → (latest ≡ start) ⊎ ((latest ≡ c) ⊎ Listed latest rest)
      origin next latest (inl a) (inl b) = inr (inl (b ∙ a))
      origin next latest (inr a) (inl b) = inl (b ∙ a)
      origin next latest o (inr l) = inr (inr l)

  -- When the selection gives a head, that head is one of the candidates, all candidates are valid
  -- heads of the wallet, none has a higher sequence, and those with the same sequence have the same
  -- digest, so that heads in conflict are never chosen from. It gives no head only for no candidate.
  pub select_latest-IsLatest :
      (candidates : List WalletHead) (wallet_id : ByteString) (r : Option WalletHead)
      → select_latest sha256 candidates wallet_id ≡ ok r
      → ((r ≡ none) × (candidates ≡ []))
        ⊎ ((latest : WalletHead) × (r ≡ some latest) × IsLatest wallet_id candidates latest)
  unfolding select_latest select_from later_of
  select_latest-IsLatest [] wallet_id r h = inl (cc, refl)
  select_latest-IsLatest (c ∷ rest) wallet_id r h =
      after_ok (validate wallet_id c) _ h λ _ valid h1.
        let later = select_from-Rest wallet_id c rest r h1 in
        inr (
          later.latest,
          later.chosen,
          record {
            listed = later.from;
            all_valid = (valid, later.all_valid);
            highest = (later.first, later.highest);
          },
        )
