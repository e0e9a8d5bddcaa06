-- ===== src/Ssh/Retry/Outcome.antt =====
-- How a loop of internal/adapter/ssh/executor.go ends.
use proxmox_k3s.Prelude.{ℕ, zero, suc, ◌+◌, ◌≡◌, refl, arith, Option, none, some}
use proxmox_k3s.Prelude.Text.{Text}
use proxmox_k3s.Prelude.Result.{Result, ok, err, Exec}
use proxmox_k3s.Ssh.Retry.{Clock, out_of_rounds, after_pause, after_attempt, unless_done, retry}

module _ {S A : Type 0} (C : Clock S) (attempt : Exec S Text A)
    (give_up : Option Text → Text → Text) where
  -- So many attempts that fail, each followed by a whole pause; with the last error before and after.
  pub data Failing : Option Text → S → ℕ → Option Text → S → Type 0 where
    no_more : {last : Option Text} {s : S} → Failing last s 0 last s
    again :
        {last end : Option Text} {s t u v : S} {e : Text} {n : ℕ}
        → C.context_error s ≡ none
        → attempt s ≡ (err e, t)
        → C.pause 5 t ≡ (none, u)
        → Failing (some e) u n end v
        → Failing last s (suc n) end v

  pub data Ends (left : ℕ) (last : Option Text) (s : S) (r : Result Text A × S) : Type 0 where
    done : (a : A) (t : S) → attempt s ≡ (ok a, t) → r ≡ (ok a, t) → Ends left last s r
    stopped :
        (c : Text) → C.context_error s ≡ some c → r ≡ (err (give_up last c), s) → Ends left last s r
    cut_short :
        (e c : Text) (t u : S)
        → attempt s ≡ (err e, t)
        → C.pause 5 t ≡ (some c, u)
        → r ≡ (err c, u)
        → Ends left last s r
    unfinished : left ≡ 0 → r ≡ (err out_of_rounds, s) → Ends left last s r

  Outcome : ℕ → Option Text → S → Result Text A × S → Type 0
  Outcome rounds last s r =
      (n : ℕ) × (left : ℕ) × (end : Option Text) × (t : S) × (n + left ≡ rounds)
      × Failing last s n end t
      × Ends left end t r

  after_pause-Outcome :
      (rounds : ℕ) (last : Option Text) (e : Text) (s t u : S) (c : Option Text)
      (next : Exec S Text A)
      → C.context_error s ≡ none
      → attempt s ≡ (err e, t)
      → C.pause 5 t ≡ (c, u)
      → ((v : S) → Outcome rounds (some e) v (next v))
      → Outcome (suc rounds) last s (after_pause C attempt give_up c next u)
  unfolding after_pause Outcome
  after_pause-Outcome rounds last e s t u (some c) next hc ha hp later =
      (0, suc rounds, last, s, omega arith, no_more, cut_short e c t u ha hp refl)
  after_pause-Outcome rounds last e s t u none next hc ha hp later =
      let (n, left, end, v, sum, failed, ends) = later u in
      (suc n, left, end, v, omega arith, again hc ha hp failed, ends)

  after_attempt-Outcome :
      (rounds : ℕ) (last : Option Text) (s t : S) (r : Result Text A) (next : Text → Exec S Text A)
      → C.context_error s ≡ none
      → attempt s ≡ (r, t)
      → ((e : Text) (v : S) → Outcome rounds (some e) v (next e v))
      → Outcome (suc rounds) last s (after_attempt C attempt give_up r next t)
  unfolding after_attempt Outcome
  after_attempt-Outcome rounds last s t (ok a) next hc ha later =
      (0, suc rounds, last, s, omega arith, no_more, done a t ha refl)
  after_attempt-Outcome rounds last s t (err e) next hc ha later =
      after_pause-Outcome rounds last e s t (C.pause 5 t).1 (C.pause 5 t).0 (next e) hc ha refl
        (later e)

  unless_done-Outcome :
      (rounds : ℕ) (last : Option Text) (s : S) (c : Option Text) (next : Exec S Text A)
      → C.context_error s ≡ c
      → (C.context_error s ≡ none → Outcome (suc rounds) last s (next s))
      → Outcome (suc rounds) last s (unless_done C attempt give_up c last next s)
  unfolding unless_done Outcome
  unless_done-Outcome rounds last s (some c) next hc later =
      (0, suc rounds, last, s, omega arith, no_more, stopped c hc refl)
  unless_done-Outcome rounds last s none next hc later = later hc

  -- After some attempts that fail, each followed by a whole pause of five seconds with the context
  -- alive, the loop ends: an attempt succeeds, or the context is done before an attempt or in the
  -- pause behind one, or the rounds are over. The result is that attempt's or the context's error,
  -- and nothing else is tried.
  pub retry_outcome :
      (rounds : ℕ) (last : Option Text) (s : S)
      → (n : ℕ) × (left : ℕ) × (end : Option Text) × (t : S) × (n + left ≡ rounds)
        × Failing last s n end t
        × Ends left end t (retry C attempt give_up rounds last s)
  unfolding retry Outcome
  retry_outcome zero last s = (0, 0, last, s, refl, no_more, unfinished refl refl)
  retry_outcome (suc rounds) last s =
      unless_done-Outcome rounds last s (C.context_error s) _ refl (λ hc.
        after_attempt-Outcome rounds last s (attempt s).1 (attempt s).0 _ hc refl
          (λ e v. retry_outcome rounds (some e) v))
