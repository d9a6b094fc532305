-- ===== src/Storage/Appended.antt =====
-- `_append`: a file to which records are added, and one to which that is done only in part.
use energy_optimizer.Prelude.{
  ℕ, zero, suc, ◌≤◌, Bool, true, false, some, List, ◌∷◌, [], ◌++◌, nat_eq, ◌≡◌, ◌⊎◌, refl, sym, ap,
  ◌∙◌, arith, length, take, inl, inr, Bool-cases, ok, All, append_assoc, append-nil, subst,
  or_default,
}
use energy_optimizer.Floats.{FloatOps}
use energy_optimizer.Bytes.{Bytes, split_lines, is_terminated, starts_with}
use energy_optimizer.Bytes.Lines.{split_lines-append, end_last, split_lines-end, is_terminated-end}
use energy_optimizer.Json.{Format}
use energy_optimizer.Ndjson.{HouseholdLoadRecord}
use energy_optimizer.Ndjson.Encode.{encode, encode_household_records}
use energy_optimizer.Ndjson.Parse.{Reading, parse_lines}
use energy_optimizer.Ndjson.Lines.{
  IsWritable, after, parse_lines-append, parse_lines-end_last, parse_lines-encode_records,
}
use energy_optimizer.Ndjson.Cut.{encode_household_records-IsCut}
use energy_optimizer.Storage.Outcome.{set_file_same}
use energy_optimizer.Storage.{
  FilePath, path_eq, Disk, Fault, works, fails, stops_after, fails_late, next_fault, addition,
  append, append_under, write_file,
}
use energy_optimizer.Scan.Cut.{take-all}

addition-nil : (added : Bytes) → addition [] added ≡ added
unfolding addition
addition-nil added = refl

addition-terminated :
    (c : ℕ) (cs added : Bytes) → is_terminated (c ∷ cs) ≡ true → addition (c ∷ cs) added ≡ added
unfolding addition
addition-terminated c cs added h = ground (arith, h)

addition-lacks :
    (c : ℕ) (cs added : Bytes)
    → is_terminated (c ∷ cs) ≡ false
    → addition (c ∷ cs) added ≡ 10 ∷ added
unfolding addition
addition-lacks c cs added h = ground (arith, h)

module _ {Num : Type 0} ⦃f : FloatOps Num⦄ (format : Format Num) where
  abbrev pub whole : List (HouseholdLoadRecord Num) → Reading Num
  whole rs = record { records = rs; incomplete = false }

  -- Bytes that are added to a file, whose lines are all read, are read as they are alone.
  pub parse_lines-addition :
      (existing added : Bytes) (rs : List (HouseholdLoadRecord Num)) (reading : Reading Num)
      → parse_lines format (split_lines existing) ≡ ok (whole rs)
      → starts_with 10 added ≡ false
      → parse_lines format (split_lines added) ≡ ok reading
      → parse_lines format (split_lines (existing ++ addition existing added))
        ≡ ok (after rs reading)
  parse_lines-addition [] added rs reading e apart e' =
      ap (λ l. parse_lines format (split_lines l)) (addition-nil added)
      ∙ parse_lines-append format [] (split_lines added) rs reading (unfold split_lines in e) e'
  parse_lines-addition (c ∷ cs) added rs reading e apart e' =
      elim (Bool-cases (is_terminated (c ∷ cs))) [
        | inl ends ↦
            ap (λ l. parse_lines format (split_lines ((c ∷ cs) ++ l)))
              (addition-terminated c cs added ends)
            ∙ ap (parse_lines format) (split_lines-append (c ∷ cs) added ends apart)
            ∙ parse_lines-append format (split_lines (c ∷ cs)) (split_lines added) rs reading e e'
        | inr lacks ↦
            ap (λ l. parse_lines format (split_lines ((c ∷ cs) ++ l)))
              (addition-lacks c cs added lacks)
            ∙ ap (λ l. parse_lines format (split_lines l))
                (sym (append_assoc (c ∷ cs) (10 ∷ []) added))
            ∙ ap (parse_lines format)
                (split_lines-append ((c ∷ cs) ++ 10 ∷ []) added (is_terminated-end (c ∷ cs)) apart)
            ∙ ap (λ l. parse_lines format (l ++ split_lines added)) (split_lines-end c cs lacks)
            ∙ parse_lines-append format (end_last (split_lines (c ∷ cs))) (split_lines added) rs
                reading (parse_lines-end_last format (split_lines (c ∷ cs)) rs e) e'
      ]

starts_with-take :
    (n : ℕ) (l : Bytes) → starts_with 10 l ≡ false → starts_with 10 (take n l) ≡ false
starts_with-take zero l h = refl
starts_with-take (suc n) [] h = h
starts_with-take (suc n) (c ∷ l) h = h

-- What is written of an addition is an addition of less, or nothing.
take-addition :
    (n : ℕ) (existing added : Bytes)
    → ((m : ℕ) × (existing ++ take n (addition existing added)
          ≡ existing ++ addition existing (take m added)))
      ⊎ (existing ++ take n (addition existing added) ≡ existing)
take-addition n [] added =
    inl (n, ap (take n) (addition-nil added) ∙ sym (addition-nil (take n added)))
take-addition n (c ∷ cs) added = elim (Bool-cases (is_terminated (c ∷ cs))) [
  | inl ends ↦ inl (
    n,
    ap (λ l. (c ∷ cs) ++ take n l) (addition-terminated c cs added ends)
        ∙ ap (λ l. (c ∷ cs) ++ l) (sym (addition-terminated c cs (take n added) ends)),
  )
  | inr lacks ↦ part n lacks
]
  where
    part :
        (n : ℕ)
        → is_terminated (c ∷ cs) ≡ false
        → ((m : ℕ) × ((c ∷ cs) ++ take n (addition (c ∷ cs) added)
              ≡ (c ∷ cs) ++ addition (c ∷ cs) (take m added)))
          ⊎ ((c ∷ cs) ++ take n (addition (c ∷ cs) added) ≡ c ∷ cs)
    part zero lacks = inr (append-nil (c ∷ cs))
    part (suc n) lacks = inl (
      n,
      ap (λ l. (c ∷ cs) ++ take (suc n) l) (addition-lacks c cs added lacks)
          ∙ ap (λ l. (c ∷ cs) ++ l) (sym (addition-lacks c cs (take n added) lacks)),
    )

module _ {Num : Type 0} ⦃f : FloatOps Num⦄ (format : Format Num) where
  -- The file has the records `rs`, the first of `new`, and then perhaps an incomplete line.
  pub record HasPart (rs new : List (HouseholdLoadRecord Num)) (bytes : Bytes) : Type 0 where
    pub complete : ℕ
    pub no_more : complete ≤ length new
    pub incomplete : Bool
    pub read :
        parse_lines format (split_lines bytes)
        ≡ ok (record { records = rs ++ take complete new; incomplete = incomplete })

  pub starts_with-encode :
      (new : List (HouseholdLoadRecord Num))
      → All (λ r. IsWritable format r) new
      → starts_with 10 (encode_household_records format new) ≡ false
  unfolding encode_household_records encode
  starts_with-encode [] w = refl
  starts_with-encode (r ∷ new) w =
      ap (λ l. starts_with 10 ((l ++ 10 ∷ []) ++ encode_household_records format new))
        w.0.1.one_object.braced

  -- Adding all the records.
  pub parse_lines-append_records :
      (existing : Bytes) (rs new : List (HouseholdLoadRecord Num))
      → parse_lines format (split_lines existing) ≡ ok (whole format rs)
      → All (λ r. IsWritable format r) new
      → parse_lines format
          (split_lines (existing ++ addition existing (encode_household_records format new)))
        ≡ ok (whole format (rs ++ new))
  parse_lines-append_records existing rs new e w =
      parse_lines-addition format existing (encode_household_records format new) rs
        (whole format new) e (starts_with-encode new w) (parse_lines-encode_records format new w)

  -- Adding records, but stopping somewhere: all that was read is read still.
  pub HasPart-addition :
      (existing : Bytes) (rs new : List (HouseholdLoadRecord Num)) (n : ℕ)
      → parse_lines format (split_lines existing) ≡ ok (whole format rs)
      → All (λ r. IsWritable format r) new
      → HasPart rs new
          (existing ++ take n (addition existing (encode_household_records format new)))
  HasPart-addition existing rs new n e w =
      elim (take-addition n existing (encode_household_records format new)) [
        | inl (m, same) ↦
            let c = encode_household_records-IsCut format new m w in
            record {
              complete = c.complete;
              no_more = c.no_more;
              incomplete = c.incomplete;
              read =
                  ap (λ l. parse_lines format (split_lines l)) same
                  ∙ parse_lines-addition format existing
                      (take m (encode_household_records format new)) rs _ e
                      (starts_with-take m _ (starts_with-encode new w)) c.read;
            }
        | inr same ↦ record {
          complete = 0;
          no_more = omega arith;
          incomplete = false;
          read =
              ap (λ l. parse_lines format (split_lines l)) same
              ∙ e
              ∙ ap (λ l. ok (whole format l)) (sym (append-nil rs));
        }
      ]

-- What `append` leaves, whatever becomes of it.
module _ {Num : Type 0} ⦃f : FloatOps Num⦄ (format : Format Num) where
  parse_lines-joined :
      (existing : Bytes) (rs new : List (HouseholdLoadRecord Num))
      → parse_lines format (split_lines existing) ≡ ok (whole format rs)
      → All (λ r. IsWritable format r) new
      → parse_lines format
          (split_lines (existing ++ addition existing (encode_household_records format new)))
        ≡ ok (whole format (rs ++ take (length new) new))
  parse_lines-joined existing rs new e w =
      parse_lines-append_records format existing rs new e w
      ∙ ap (λ l. ok (whole format (rs ++ l))) (sym (take-all (length new) new (omega arith)))

  joined-HasPart :
      (existing : Bytes) (rs new : List (HouseholdLoadRecord Num))
      → parse_lines format (split_lines existing) ≡ ok (whole format rs)
      → All (λ r. IsWritable format r) new
      → HasPart format rs new (existing ++ addition existing (encode_household_records format new))
  joined-HasPart existing rs new e w = record {
    complete = length new;
    no_more = omega arith;
    incomplete = false;
    read = parse_lines-joined existing rs new e w;
  }

  HasPart-none :
      (existing : Bytes) (rs new : List (HouseholdLoadRecord Num))
      → parse_lines format (split_lines existing) ≡ ok (whole format rs)
      → HasPart format rs new existing
  HasPart-none existing rs new e = record {
    complete = 0;
    no_more = omega arith;
    incomplete = false;
    read = e ∙ ap (λ l. ok (whole format l)) (sym (append-nil rs));
  }

  -- The bytes of the file that `append` has written to.
  abbrev pub left_by : FilePath → Disk → Bytes
  left_by path disk = or_default [] (disk.files path)

  left_by-write :
      (path : FilePath) (content : Bytes) (disk : Disk)
      → left_by path (write_file path (some content) disk) ≡ content
  left_by-write path content disk =
      ap (or_default []) (set_file_same path (some content) disk.files)

  append_under-HasPart :
      (fault : Fault) (path : FilePath) (disk : Disk) (rs new : List (HouseholdLoadRecord Num))
      → parse_lines format (split_lines (left_by path disk)) ≡ ok (whole format rs)
      → All (λ r. IsWritable format r) new
      → let existing = left_by path disk in
        let added = addition existing (encode_household_records format new) in
        (part : HasPart format rs new
          (left_by path (append_under fault path existing added disk).1))
        × ((append_under fault path existing added disk).0 ≡ ok tt → part.complete ≡ length new)
  append_under-HasPart works path disk rs new e w = (
    record {
      complete = length new;
      no_more = omega arith;
      incomplete = false;
      read =
          ap (λ l. parse_lines format (split_lines l)) (left_by-write path _ disk)
          ∙ parse_lines-joined (left_by path disk) rs new e w;
    },
    λ _. refl,
  )
  append_under-HasPart fails path disk rs new e w =
      (HasPart-none (left_by path disk) rs new e, λ h. cc)
  append_under-HasPart (stops_after n) path disk rs new e w = (
    subst (HasPart format rs new) (sym (left_by-write path _ disk))
        (HasPart-addition format (left_by path disk) rs new n e w),
    λ h. cc,
  )
  append_under-HasPart fails_late path disk rs new e w = (
    subst (HasPart format rs new) (sym (left_by-write path _ disk))
        (joined-HasPart (left_by path disk) rs new e w),
    λ h. cc,
  )

  -- A file whose lines are all read is added records to that are valid and have texts that read
  -- back, and meets any fault: a failure at once, a failure after any number of bytes, one at the
  -- very end, or none. All that was read before is read still, then the first of the new records, and
  -- then perhaps an incomplete line; and if nothing is raised, then it is all of the new records.
  pub append-HasPart :
      (path : FilePath) (disk : Disk) (rs new : List (HouseholdLoadRecord Num))
      → parse_lines format (split_lines (left_by path disk)) ≡ ok (whole format rs)
      → All (λ r. IsWritable format r) new
      → (part : HasPart format rs new
          (left_by path (append path (encode_household_records format new) disk).1))
        × ((append path (encode_household_records format new) disk).0 ≡ ok tt
            → part.complete ≡ length new)
  unfolding append
  append-HasPart path disk rs new e w = append_under-HasPart (next_fault disk) path disk rs new e w
