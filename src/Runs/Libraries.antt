-- ===== src/Runs/Libraries.antt =====
-- A library of aluvm with two extensions and one dependency.
use rgb.Prelude.{◌≡◌, refl, none, some, Option, List, [], ◌∷◌, replicate, ok, String}
use rgb.Prelude.Bytes.{ByteString}
use rgb.StrictTypes.Value.{Value, node, nil, no_fields, no_entries, no_items, Kind}
use rgb.StrictTypes.Compare.{aluvm_lib_id, fields, field_list}
use rgb.Formats.ConsignmentId.{library_ids_of}
use rgb.Formats.LibraryId.{library_of, library_ids_of-aluvm_lib_id}
use rgb.Runs.Anchored.{sample_hash}
use rgb.Samples.{plain, blob, to_items}

abbrev text : String → Value
text t = node (record (plain Kind.string) { text = t }) nil no_fields no_items no_entries

abbrev set_of : List Value → Value
set_of vs = node (plain Kind.set) nil no_fields (to_items vs) no_entries

abbrev library : Value
library =
    library_of (plain Kind.struct) nil (set_of (text "ALU" ∷ text "RGB" ∷ [])) (blob (7 ∷ 8 ∷ []))
      (blob []) (set_of (blob (replicate 32 3) ∷ [])) no_items no_entries

abbrev found_id : Option ByteString → ByteString
found_id none = []
found_id (some id) = id

library_id : ByteString
unfolding aluvm_lib_id sample_hash
library_id = found_id (aluvm_lib_id sample_hash (field_list (fields library)))

library_found : aluvm_lib_id sample_hash (field_list (fields library)) ≡ some library_id
unfolding aluvm_lib_id sample_hash library_id
library_found = refl

library_ids_of-aluvm_lib_id_example :
    library_ids_of sample_hash (library ∷ []) ≡ ok (library_id ∷ [])
library_ids_of-aluvm_lib_id_example =
    library_ids_of-aluvm_lib_id sample_hash (plain Kind.struct) nil
      (set_of (text "ALU" ∷ text "RGB" ∷ [])) (blob (7 ∷ 8 ∷ [])) (blob [])
      (set_of (blob (replicate 32 3) ∷ [])) no_items no_entries library_id library_found
