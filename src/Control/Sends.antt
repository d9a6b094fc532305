-- ===== src/Control/Sends.antt =====
-- The calls that a list of commands makes, up to the first one that fails.
use energy_optimizer.Prelude.{
  ℕ, suc, ◌≡◌, refl, sym, Bool, true, false, ◌&&◌, none, List, [], ◌∷◌, ◌++◌, ap, ap₂, ◌∙◌, arith,
  leb, if◌then◌else◌, length, Result, ok, err, Bool-cases, inl, inr, append_assoc, length-append,
  Dict, String, subst, ◌⊎◌,
}
use energy_optimizer.Control.{
  not_rounded, uneven_schedule, no_hours, not_loaded, Service, FieldValue, Call, Response,
  transport_error, status, ControlError, not_sent, rejected, failed, EvController, ◌then◌,
  continued, answer, call, on_control_error, Attempt,
}

abbrev pub is_accepted : Response → Bool
is_accepted transport_error = false
is_accepted (status code) = if leb 400 code then false else true

-- The failures that a poll turns into its own outcome.
abbrev pub is_control_error : ControlError → Bool
is_control_error (not_sent _) = true
is_control_error (rejected _ _) = true
is_control_error _ = false

answer-cases :
    (service : Service) (r : Response)
    → ((is_accepted r ≡ true) × (answer service r ≡ ok tt))
      ⊎ ((is_accepted r ≡ false)
          × (e : ControlError) × (answer service r ≡ err e)
          × (is_control_error e ≡ true))
answer-cases service transport_error = inr (refl, not_sent service, refl, refl)
answer-cases service (status code) = elim (Bool-cases (leb 400 code)) [
  | inl high ↦ rw high (inr (refl, rejected service code, refl, refl))
  | inr low ↦ rw low (inl (refl, refl))
]

pub on_control_error-caught :
    {Num : Type 0} (s : EvController Num) (e : ControlError)
    → is_control_error e ≡ true
    → on_control_error (s, err e) ≡ (record s { applied_kw = none }, ok failed)
on_control_error-caught s (not_sent _) h = refl
on_control_error-caught s (rejected _ _) h = refl
on_control_error-caught s not_rounded h = cc
on_control_error-caught s uneven_schedule h = cc
on_control_error-caught s no_hours h = cc
on_control_error-caught s (not_loaded _) h = cc

module _ {Num : Type 0} (respond : ℕ → Response) where
  -- The calls that are made of a list of commands, from the n-th call on: up to the first failure.
  abbrev pub sent : ℕ → List (Call Num) → List (Call Num)
  sent n [] = []
  sent n (c ∷ cs) = let rest = sent (suc n) cs in c ∷ (if is_accepted (respond n) then rest else [])

  abbrev pub all_accepted : ℕ → List (Call Num) → Bool
  all_accepted n [] = true
  all_accepted n (c ∷ cs) = is_accepted (respond n) && all_accepted (suc n) cs

  -- The state after some commands were sent.
  abbrev pub after_calls : EvController Num → List (Call Num) → EvController Num
  after_calls s cs = record s { calls = s.calls ++ sent (length s.calls) cs }

  -- `m` sends the commands `cs`, up to the first failure, which it raises.
  abbrev pub Sends :
      List (Call Num)
      → EvController Num × Result ControlError (Unit {0})
      → EvController Num
      → Type 0
  Sends cs outcome s =
      (outcome.0 ≡ after_calls s cs)
      × (((all_accepted (length s.calls) cs ≡ true) × (outcome.1 ≡ ok tt))
          ⊎ ((all_accepted (length s.calls) cs ≡ false)
              × (e : ControlError) × (outcome.1 ≡ err e)
              × (is_control_error e ≡ true)))

  -- If all calls are accepted, all are made.
  pub sent-all : (n : ℕ) (cs : List (Call Num)) → all_accepted n cs ≡ true → sent n cs ≡ cs
  sent-all n [] h = refl
  sent-all n (c ∷ cs) h =
      let first : is_accepted (respond n) ≡ true = ground (arith, h) in
      rw first (ap (λ l. c ∷ l) (sent-all (suc n) cs (ground (arith, h))))

  pub call-Sends :
      (service : Service) (fields : Dict String (FieldValue Num)) (s : EvController Num)
      → Sends (record { service = service; fields = fields } ∷ []) (call respond service fields s) s
  unfolding call
  call-Sends service fields s = elim (answer-cases service (respond (length s.calls))) [
    | inl (good, is_ok) ↦ rw good (refl, inl (refl, is_ok))
    | inr (bad, e, is_err, kind) ↦ rw bad (refl, inr (refl, e, is_err, kind))
  ]

  after_both :
      (c : Call Num) (cs : List (Call Num)) (s : EvController Num)
      → is_accepted (respond (length s.calls)) ≡ true
      → let t : EvController Num = record s { calls = s.calls ++ c ∷ [] } in
        (after_calls t cs ≡ after_calls s (c ∷ cs))
        × (all_accepted (length t.calls) cs ≡ all_accepted (length s.calls) (c ∷ cs))
  after_both c cs s good =
      let size : length (s.calls ++ c ∷ []) ≡ suc (length s.calls) =
        omega (arith, length-append s.calls (c ∷ [])) in
      rw (size, good)
        (
          ap (λ l. record s { calls = l })
              (append_assoc s.calls (c ∷ []) (sent (suc (length s.calls)) cs)),
          refl,
        )

  pub Sends-then :
      (c : Call Num) (cs : List (Call Num)) (m k : Attempt Num (Unit {0})) (s : EvController Num)
      → Sends (c ∷ []) (m s) s
      → ((t : EvController Num) → Sends cs (k t) t)
      → Sends (c ∷ cs) ((m then λ _. k) s) s
  Sends-then c cs m k s (state, inl (good, is_ok)) next =
      let a : is_accepted (respond (length s.calls)) ≡ true = ground (arith, good) in
      let t : EvController Num = record s { calls = s.calls ++ c ∷ [] } in
      let state' : (m s).0 ≡ t = state ∙ rw a refl in
      let (calls_eq, accepted_eq) = after_both c cs s a in
      let whole : m s ≡ (t, ok tt) = ap₂ (λ x y. (x, y)) state' is_ok in
      subst (λ o. Sends (c ∷ cs) (continued (λ _. k) o) s) (sym whole)
        (
          (next t).0 ∙ calls_eq,
          subst
              (λ b.
                ((b ≡ true) × ((k t).1 ≡ ok tt))
                ⊎ ((b ≡ false)
                    × (e : ControlError) × ((k t).1 ≡ err e)
                    × (is_control_error e ≡ true)))
              accepted_eq (next t).1,
        )
  Sends-then c cs m k s (state, inr (bad, e, is_err, kind)) next =
      let a : is_accepted (respond (length s.calls)) ≡ false = ground (arith, bad) in
      let whole : m s ≡ (after_calls s (c ∷ []), err e) = ap₂ (λ x y. (x, y)) state is_err in
      subst (λ o. Sends (c ∷ cs) (continued (λ _. k) o) s) (sym whole)
        (rw a (refl, inr (refl, e, refl, kind)))
