-- ===== src/Scan/Tests.antt =====
-- Tests of the scan, and the theorem at a small text.
use energy_optimizer.Prelude.{◌≡◌, refl, true, false, [], ◌∷◌, take}
use energy_optimizer.Bytes.{Bytes, strip_left, strip_right}
use energy_optimizer.Scan.{scan, scan_byte, looks_like_incomplete_household_record}
use energy_optimizer.Scan.Balanced.{done, plain, quoted, closed, escape, IsObjectText}
use energy_optimizer.Scan.Cut.{looks_like_incomplete_household_record-take}

-- {"\\"":1}
abbrev small_object : Bytes
small_object = b'{' ∷ b'"' ∷ b'\\' ∷ b'"' ∷ b'"' ∷ b':' ∷ b'1' ∷ b'}' ∷ []

small_object-IsObjectText : IsObjectText small_object
small_object-IsObjectText = record {
  inner = b'"' ∷ b'\\' ∷ b'"' ∷ b'"' ∷ b':' ∷ b'1' ∷ [];
  balanced = quoted (escape b'"' closed) (plain b':' refl (plain b'1' refl done));
  braced = refl;
}

cut_in_string : looks_like_incomplete_household_record (take 4 small_object) ≡ true
unfolding looks_like_incomplete_household_record scan scan_byte strip_left strip_right
cut_in_string = refl

-- {]
wrong_bracket : looks_like_incomplete_household_record (b'{' ∷ b']' ∷ []) ≡ false
unfolding looks_like_incomplete_household_record scan scan_byte strip_left strip_right
wrong_bracket = refl

looks_like_incomplete_household_record-take_example :
    looks_like_incomplete_household_record (take 5 small_object) ≡ true
looks_like_incomplete_household_record-take_example =
    looks_like_incomplete_household_record-take 5 small_object small_object-IsObjectText
