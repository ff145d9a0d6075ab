-- ===== src/Tfrender/Quoted/Fuel.antt =====
-- go/internal/tfrender/import_moves.go: the fuel of the loop of `ParseHclQuotedString`.
use infrawright_dev.Base.{
  ℕ, zero, suc, ◌≤◌, ◌<◌, [], ◌∷◌, ◌++◌, length, Text, Result, ok, err, ◌≡◌, ◌≢◌, refl, arith, ◌==◌,
  Bool-cases, inl, inr,
}
use infrawright_dev.Tfrender.Quoted.{
  no_fuel, Failure, ScanStep, copied, closed, failed, scan_step, scan_loop, parse_quoted,
}

-- What a round leaves to read.
abbrev Leaves : ℕ → ScanStep → Type 0
Leaves n (closed rest) = length rest < n
Leaves n (copied piece rest) = length rest < n
Leaves n failed = Unit

scan_step-Leaves : (t : Text) → Leaves (length t) (scan_step t)
unfolding scan_step
scan_step-Leaves [] = tt
scan_step-Leaves (c ∷ cs) = ground arith

-- What the loop returns: never the end of the fuel, and with a value a rest that is shorter.
abbrev pub Returns : ℕ → Result Failure (Text × Text) → Type 0
Returns n (ok (v, rest)) = length rest < n
Returns n (err e) = e ≢ no_fuel

Returns-mono : {m n : ℕ} (r : Result Failure (Text × Text)) → m ≤ n → Returns m r → Returns n r
Returns-mono (ok (v, rest)) h k = omega arith
Returns-mono (err e) h k = k

scan_loop_next :
    (fuel : ℕ) (output t : Text) (s : ScanStep)
    → scan_step t ≡ s
    → ((o r : Text) → length r < fuel → Returns (length r) (scan_loop fuel o r))
    → length t < suc fuel
    → Leaves (length t) s
    → Returns (length t) (scan_loop (suc fuel) output t)
unfolding scan_loop
scan_loop_next fuel output t (closed rest) e rec h k = rw (e, scan_loop) k
scan_loop_next fuel output t (copied piece rest) e rec h k =
    rw (e, scan_loop)
      (Returns-mono (scan_loop fuel (output ++ piece) rest) (omega arith)
        (rec (output ++ piece) rest (omega arith)))
scan_loop_next fuel output t failed e rec h k = rw (e, scan_loop) (λ p. cc)

scan_loop-Returns :
    (fuel : ℕ) (output t : Text) → length t < fuel → Returns (length t) (scan_loop fuel output t)
scan_loop-Returns zero output t h = elim h [ ]
scan_loop-Returns (suc fuel) output t h =
    scan_loop_next fuel output t (scan_step t) refl (scan_loop-Returns fuel) h (scan_step-Leaves t)

pub parse_quoted-Returns : (t : Text) → Returns (length t) (parse_quoted t)
unfolding parse_quoted
parse_quoted-Returns [] = λ p. cc
parse_quoted-Returns (c ∷ cs) = elim (Bool-cases (c == b'"')) [
  | inl quote ↦ rw quote (
      Returns-mono (scan_loop (suc (length cs)) [] cs) (omega arith)
        (scan_loop-Returns (suc (length cs)) [] cs (omega arith)))
  | inr other ↦ rw other (λ p. cc)
]
