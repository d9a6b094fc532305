-- ===== src/Ndjson/Cut.antt =====
-- Records whose end was cut off as they were written.
use energy_optimizer.Prelude.{
  ℕ, zero, suc, ◌-◌, ◌<◌, ◌≤◌, Bool, true, false, none, List, ◌∷◌, [], ◌++◌, ◌==◌, nat_eq, ◌≡◌,
  refl, sym, ap, ◌∙◌, arith, length, take, inl, inr, Bool-cases, ok, ltb, All, leb, append_assoc,
  subst, length-append, length-take,
}
use energy_optimizer.Floats.{FloatOps}
use energy_optimizer.Bytes.{Bytes, split_lines, strip}
use energy_optimizer.Bytes.Lines.{
  IsText, split_lines-last, strip_right-IsText, is_terminated-IsText,
}
use energy_optimizer.Json.{Format}
use energy_optimizer.Scan.Balanced.{IsObjectText}
use energy_optimizer.Scan.Cut.{
  strip-brace, take-short, take-long, take-all, looks_like_incomplete_household_record-take,
}
use energy_optimizer.Ndjson.{HouseholdLoadRecord}
use energy_optimizer.Ndjson.Encode.{payload, encode, encode_household_records}
use energy_optimizer.Ndjson.Parse.{parse_line, parse_lines}
use energy_optimizer.Ndjson.Lines.{
  IsWritable, parse_line-text, parse_lines-cons, split_lines-encode, parse_line-encode,
}

All-take : {A : Type 0} (P : A → Type 0) (n : ℕ) (xs : List A) → All P xs → All P (take n xs)
All-take P zero xs h = tt
All-take P (suc n) [] h = tt
All-take P (suc n) (x ∷ xs) h = (h.0, All-take P n xs h.1)

-- Behind a brace that is left, a cut text is not blank.
cut_not_blank :
    (n : ℕ) (t : Bytes) → IsObjectText t → 0 < n → (length (strip (take n t)) == 0) ≡ false
cut_not_blank zero t o h = absurd (omega (arith, h))
cut_not_blank (suc n) t o h =
    ap (λ l. length (strip (take (suc n) l)) == 0) o.braced ∙ rw strip-brace (ground arith)

-- A text that nothing terminates is one line.
one_line : (text : Bytes) → IsText text → 0 < length text → split_lines text ≡ text ∷ []
one_line [] h some_byte = absurd (omega (arith, some_byte))
one_line (c ∷ text) h some_byte = split_lines-last c text h

module _ {Num : Type 0} ⦃f : FloatOps Num⦄ (format : Format Num) where
  abbrev text_of : HouseholdLoadRecord Num → Bytes
  text_of r = format.dumps (payload format r)

  -- What is left of a record is taken for an incomplete line.
  parse_line-cut :
      (r : HouseholdLoadRecord Num) (n : ℕ)
      → IsWritable format r
      → 0 < n
      → n < length (text_of r)
      → parse_line format (take n (text_of r)) ≡ ok none
  unfolding parse_line
  parse_line-cut r n w some_byte cut =
      let text = All-take _ n (text_of r) w.1.one_line in
      rw
        (
          strip_right-IsText (take n (text_of r)) text,
          is_terminated-IsText (take n (text_of r)) text,
          cut_not_blank n (text_of r) w.1.one_object some_byte,
          w.1.cut_off n some_byte cut,
          looks_like_incomplete_household_record-take n (text_of r) w.1.one_object,
        )
        (ground (arith, some_byte, cut))

  parse_lines-stop :
      (line : Bytes) (lines : List Bytes)
      → parse_line format line ≡ ok none
      → parse_lines format (line ∷ lines) ≡ ok (record { records = []; incomplete = true })
  unfolding parse_lines
  parse_lines-stop line lines e = rw (parse_lines, e) refl

  parse_lines-nil : parse_lines format [] ≡ ok (record { records = []; incomplete = false })
  unfolding parse_lines
  parse_lines-nil = refl

  -- What `rs` is read as when the writing of it stops somewhere: the first `k` records, and then
  -- perhaps an incomplete line.
  pub record IsCut (rs : List (HouseholdLoadRecord Num)) (bytes : Bytes) : Type 0 where
    pub complete : ℕ
    pub no_more : complete ≤ length rs
    pub incomplete : Bool
    pub read :
        parse_lines format (split_lines bytes)
        ≡ ok (record { records = take complete rs; incomplete = incomplete })

  IsCut-nil : (rs : List (HouseholdLoadRecord Num)) → IsCut rs []
  IsCut-nil rs = record {
    complete = 0;
    no_more = omega arith;
    incomplete = false;
    read = unfold split_lines in parse_lines-nil;
  }

  -- What is left of one record, without its line end.
  IsCut-text :
      (r : HouseholdLoadRecord Num) (rs : List (HouseholdLoadRecord Num)) (n : ℕ)
      → IsWritable format r
      → n ≤ length (text_of r)
      → IsCut (r ∷ rs) (take n (text_of r))
  IsCut-text r rs zero w le = IsCut-nil (r ∷ rs)
  IsCut-text r rs (suc n) w le = elim (Bool-cases (ltb (suc n) (length (text_of r)))) [
    | inl cut ↦
        let text = All-take _ (suc n) (text_of r) w.1.one_line in
        record {
          complete = 0;
          no_more = omega arith;
          incomplete = true;
          read =
              ap (parse_lines format) (
                one_line (take (suc n) (text_of r)) text
                  (omega (arith, length-take (suc n) (text_of r), le)))
              ∙ parse_lines-stop (take (suc n) (text_of r)) []
                  (parse_line-cut r (suc n) w (omega arith) (ground (arith, cut)));
        }
    | inr whole ↦
        let all = take-all (suc n) (text_of r) (ground (arith, whole)) in
        record {
          complete = 1;
          no_more = omega arith;
          incomplete = false;
          read =
              ap (λ l. parse_lines format (split_lines l)) all
              ∙ ap (parse_lines format) (one_line (text_of r) w.1.one_line (omega (arith, le)))
              ∙ parse_lines-cons format (text_of r) [] r
                  (record { records = []; incomplete = false })
                  (parse_line-text format r (text_of r) w
                    (strip_right-IsText (text_of r) w.1.one_line))
                  parse_lines-nil;
        }
  ]

  IsCut-cons :
      (r : HouseholdLoadRecord Num) (rs : List (HouseholdLoadRecord Num)) (bytes : Bytes)
      → IsWritable format r
      → IsCut rs bytes
      → IsCut (r ∷ rs) (encode format r ++ bytes)
  IsCut-cons r rs bytes w c = record {
    complete = suc c.complete;
    no_more = omega (arith, c.no_more);
    incomplete = c.incomplete;
    read =
        ap (parse_lines format) (split_lines-encode format r bytes w)
        ∙ parse_lines-cons format (encode format r) (split_lines bytes) r _
            (parse_line-encode format r w) c.read;
  }

  encode-text :
      (r : HouseholdLoadRecord Num) (rest : Bytes)
      → encode format r ++ rest ≡ text_of r ++ 10 ∷ rest
  unfolding encode
  encode-text r rest = append_assoc (text_of r) (10 ∷ []) rest

  length-encode :
      (r : HouseholdLoadRecord Num) → length (encode format r) ≡ suc (length (text_of r))
  unfolding encode
  length-encode r = omega (arith, length-append (text_of r) (10 ∷ []))

  -- However many bytes of the records were written, the first of the records are read.
  pub encode_household_records-IsCut :
      (rs : List (HouseholdLoadRecord Num)) (n : ℕ)
      → All (λ r. IsWritable format r) rs
      → IsCut rs (take n (encode_household_records format rs))
  unfolding encode_household_records
  encode_household_records-IsCut [] n w =
      subst (λ l. IsCut [] l) (sym (take-all n [] (omega arith))) (IsCut-nil [])
  encode_household_records-IsCut (r ∷ rs) n w =
      let rest = encode_household_records format rs in
      elim (Bool-cases (leb n (length (text_of r)))) [
        | inl short ↦
            subst (λ l. IsCut (r ∷ rs) l)
              (sym (
                ap (take n) (encode-text r rest)
                ∙ take-short n (text_of r) (10 ∷ rest) (ground (arith, short))))
              (IsCut-text r rs n w.0 (ground (arith, short)))
        | inr long ↦
            subst (λ l. IsCut (r ∷ rs) l)
              (sym (
                take-long n (n - length (encode format r)) (encode format r) rest
                  (ground (arith, long, length-encode r))))
              (IsCut-cons r rs (take (n - length (encode format r)) rest) w.0
                (encode_household_records-IsCut rs (n - length (encode format r)) w.1))
      ]
