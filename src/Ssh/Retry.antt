-- ===== src/Ssh/Retry.antt =====
-- The loops of dialWithRetry and WaitSSH in internal/adapter/ssh/executor.go, which differ in what they
-- try and in the error at the end. The code sets no bound on the rounds.
pub mod Outcome
use proxmox_k3s.Prelude.{ℕ, zero, suc, Option, none, some}
use proxmox_k3s.Prelude.Text.{Text, codes}
use proxmox_k3s.Prelude.Result.{Result, ok, err, Exec}

-- The context and the timer.
pub record Clock (S : Type 0) : Type 0 where
  -- ctx.Err()
  pub context_error : S → Option Text
  -- The select between ctx.Done() and time.After of so many seconds, with ctx.Err() where the context
  -- comes first.
  pub pause : ℕ → S → Option Text × S

abbrev pub out_of_rounds : Text
out_of_rounds = codes "out of rounds"

module _ {S A : Type 0} (C : Clock S) (attempt : Exec S Text A)
    (give_up : Option Text → Text → Text) where
  after_pause : Option Text → Exec S Text A → Exec S Text A
  after_pause (some c) next s = (err c, s)
  after_pause none next s = next s

  after_attempt : Result Text A → (Text → Exec S Text A) → Exec S Text A
  unfolding after_pause
  after_attempt (ok a) next s = (ok a, s)
  after_attempt (err e) next s = let (c, s') = C.pause 5 s in after_pause c (next e) s'

  unless_done : Option Text → Option Text → Exec S Text A → Exec S Text A
  unless_done (some c) last next s = (err (give_up last c), s)
  unless_done none last next s = next s

  -- The rounds, and the last error.
  unfoldable pub retry : ℕ → Option Text → Exec S Text A
  unfolding after_attempt unless_done
  retry zero last s = (err out_of_rounds, s)
  retry (suc rounds) last s =
      let go = λ (e : Text). retry rounds (some e) in
      unless_done (C.context_error s) last (λ t. let (r, t') = attempt t in after_attempt r go t') s
