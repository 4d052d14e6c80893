-- ===== src/Formats/ArmorParsed.antt =====
-- What the parser of consignment/armor.go has checked of an armor that it returns.
use rgb.Prelude.{
  ◌^◌, leb, ◌==◌, ◌&&◌, ◌||◌, not, true, ◌≡◌, refl, length, Result, ok, armor_header,
  armor_checksum, armor_identifier, recast, subst, ok_inj, after_ok, after_some, after_guard,
}
use rgb.Prelude.Bytes.{ByteString, bytes_eq, codes}
use rgb.Consensus.TaggedHash.{Hash}
use rgb.Formats.Armor.{Armor, Headers, max_data, read_armor, header, check_headers, parse_armor}
use rgb.Formats.Text.{scan_lines, decode_hex, parse_below}
use rgb.Formats.Base85.{decode_base85}
use rgb.Formats.Base85Bytes.{AreBytes, decode_base85-AreBytes}
use rgb.Prelude.Keyed.{lookup, bytes_eq_instance}
use rgb.Formats.Container.{contract_label, transfer_label}

-- What the parser has checked of the bytes and of the kind.
pub record Parsed (sha256 : Hash) (armor : Armor) : Type 0 where
  pub content_bytes : AreBytes armor.content
  pub confined : leb (length armor.content) max_data ≡ true
  pub hashed : armor.sha256 ≡ sha256 armor.content
  pub known : (bytes_eq armor.type transfer_label || bytes_eq armor.type contract_label) ≡ true

module _ (sha256 : Hash) (decode_id : ByteString → Result ByteString) where
  check_headers-Parsed :
      (headers : Headers) (content : ByteString) (armor : Armor)
      → AreBytes content
      → leb (length content) max_data ≡ true
      → check_headers sha256 decode_id headers content ≡ ok armor
      → Parsed sha256 armor
  unfolding check_headers
  check_headers-Parsed headers content armor filled confined h =
      after_some _ (lookup (codes "Check-SHA256") headers) _ h λ checksum _ h1.
        after_ok (recast armor_checksum (decode_hex checksum)) _ h1 λ want _ h2.
          after_guard (length want == 32 && bytes_eq want (sha256 content)) _ _ h2 λ _ h3.
            after_ok (recast armor_identifier (decode_id (header (codes "Id") headers))) _ h3
              λ _ _ h4. after_some _ (lookup (codes "Version") headers) _ h4 λ text _ h5.
                after_ok (recast armor_header (parse_below (2 ^ 32) text)) _ h5 λ version _ h6.
                  after_guard
                    (bytes_eq (header (codes "Type") headers) (codes "transfer")
                      || bytes_eq (header (codes "Type") headers) (codes "contract"))
                    _ _ h6
                    λ known last. subst (Parsed sha256) (ok_inj last) (record {
                      content_bytes = filled;
                      confined = confined;
                      hashed = refl;
                      known = known;
                    })

  pub parse_armor-Parsed :
      (text : ByteString) (armor : Armor)
      → parse_armor sha256 decode_id text ≡ ok armor
      → Parsed sha256 armor
  unfolding parse_armor
  parse_armor-Parsed text armor h = after_ok (read_armor (scan_lines text)) _ h λ found _ h1.
      after_guard (not (length found.1 == 0)) _ _ h1 λ written h2.
        after_ok (decode_base85 found.1) _ h2 λ content decoded h3.
          after_guard (leb (length content) max_data) _ _ h3 λ confined h4.
            check_headers-Parsed found.0 content armor
              (decode_base85-AreBytes found.1 content written decoded) confined h4
