-- ===== src/Connection/OneShot.antt =====
-- internal/proxy/proxy.go: the listener that hands out one connection, which serveMITM serves until the
-- server closes it. A `select` with two ready cases takes either, so a call of `Accept` is a step of a
-- relation; a call that finds nothing ready waits.
use mathlib.Core.Path.{◌≡◌, refl, sym, ap, ◌∙◌}
use mathlib.Core.Logic.{◌≢◌}
use mathlib.Core.List.{List, [], ◌∷◌}
use aitori.Base.{ℕ, suc, ◌+◌, ◌≤◌, arith, Bool, true, false, if◌then◌else◌}

-- `oneShotListener` and the `notifyConn` in it: whether the connection is in the channel, whether
-- `done` is closed, and how often the connection's own `Close` and the closing of `done` have run.
pub record Listener : Type 0 where
  pub ch : Bool
  pub done : Bool
  pub conn_closes : ℕ
  pub done_closes : ℕ

-- What `serveMITM` starts with.
abbrev pub opened : Listener
opened = record { ch = true; done = false; conn_closes = 0; done_closes = 0 }

-- `Close` of the listener, by its `once`.
unfoldable pub close : Listener → Listener
close l = if l.done then l else record l { done = true; done_closes = suc l.done_closes }

-- `Close` of the connection, which closes the listener first.
unfoldable pub close_conn : Listener → Listener
unfolding close
close_conn l = let l = close l in record l { conn_closes = suc l.conn_closes }

-- What a step does: hand out the connection, tell that the listener is closed, or close.
pub data Label : Type 0 where
  accepted : Label
  ended : Label
  closing : Label
  closing_conn : Label

pub data Step : Label → Listener → Listener → Type 0 where
  accept_conn : {l : Listener} → l.ch ≡ true → Step accepted l (record l { ch = false })
  accept_ended : {l : Listener} → l.done ≡ true → Step ended l l
  close_listener : {l : Listener} → Step closing l (close l)
  close_accepted : {l : Listener} → l.ch ≡ false → Step closing_conn l (close_conn l)

-- Steps in a row, with their labels.
pub data Steps : List Label → Listener → Listener → Type 0 where
  stay : {l : Listener} → Steps [] l l
  step :
      {a : Label} {labels : List Label} {l m n : Listener}
      → Step a l m
      → Steps labels m n
      → Steps (a ∷ labels) l n

abbrev one_if : Bool → ℕ
one_if true = 1
one_if false = 0

-- How often the connection has been handed out.
abbrev pub hand_outs : List Label → ℕ
hand_outs [] = 0
hand_outs (accepted ∷ labels) = suc (hand_outs labels)
hand_outs (ended ∷ labels) = hand_outs labels
hand_outs (closing ∷ labels) = hand_outs labels
hand_outs (closing_conn ∷ labels) = hand_outs labels

-- The connection is in the channel or has been handed out, `done` has been closed at most once (a
-- second time would panic), and it has been if the connection was closed.
pub record IsSound (handed : ℕ) (l : Listener) : Type 0 where
  pub one : handed + one_if l.ch ≡ 1
  pub once : l.done_closes ≡ one_if l.done
  pub told : (l.conn_closes ≢ 0) → l.done ≡ true

close-IsSound : (k : ℕ) (l : Listener) → IsSound k l → IsSound k (close l)
unfolding close
close-IsSound k l g = either l.done refl
  where
    either :
        (b : Bool)
        → l.done ≡ b
        → IsSound k (if b then l else record l { done = true; done_closes = suc l.done_closes })
    either true e = g
    either false e = record { one = g.one; once = ap suc (g.once ∙ ap one_if e); told = λ n. refl }

done-close : (l : Listener) → (close l).done ≡ true
unfolding close
done-close l = either l.done refl
  where
    either :
        (b : Bool)
        → l.done ≡ b
        → (if b then l else record l { done = true; done_closes = suc l.done_closes }).done ≡ true
    either true e = e
    either false e = refl

step-IsSound :
    {a : Label} {l m : Listener} (k : ℕ)
    → Step a l m
    → IsSound k l
    → IsSound (k + hand_outs (a ∷ [])) m
unfolding close_conn
step-IsSound k (accept_conn e) g = record {
  one = omega (arith, g.one, ap one_if e);
  once = g.once;
  told = g.told;
}
step-IsSound k (accept_ended e) g = let same : k + 0 ≡ k = omega arith in rw same g
step-IsSound k (close_listener {l}) g =
    let same : k + 0 ≡ k = omega arith in rw same (close-IsSound k l g)
step-IsSound k (close_accepted {l} e) g =
    let same : k + 0 ≡ k = omega arith in
    let c = close-IsSound k l g in
    rw same (record { one = c.one; once = c.once; told = λ n. done-close l })

hand_outs-cons :
    (a : Label) (labels : List Label)
    → hand_outs (a ∷ []) + hand_outs labels ≡ hand_outs (a ∷ labels)
hand_outs-cons accepted labels = omega arith
hand_outs-cons ended labels = omega arith
hand_outs-cons closing labels = omega arith
hand_outs-cons closing_conn labels = omega arith

run-IsSound :
    {labels : List Label} {l n : Listener} (k : ℕ)
    → Steps labels l n
    → IsSound k l
    → IsSound (k + hand_outs labels) n
run-IsSound k stay g = let same : k + 0 ≡ k = omega arith in rw same g
run-IsSound k (step {a} {labels} s ss) g =
    let sum : (k + hand_outs (a ∷ [])) + hand_outs labels ≡ k + hand_outs (a ∷ labels) =
      omega (arith, hand_outs-cons a labels) in
    rw (sym sum) (run-IsSound (k + hand_outs (a ∷ [])) ss (step-IsSound k s g))

-- Whatever calls of `Accept` and `Close` are made, in any order but that the connection is closed
-- only once it has been handed out, it is handed out at most once, `done` is closed at most once,
-- so that nothing panics, and once the connection has been closed a call of `Accept` does not have
-- to wait but can end the server's loop.
pub run-oneshot :
    {labels : List Label} {n : Listener}
    → Steps labels opened n
    → (hand_outs labels ≤ 1) × ((n.done_closes ≤ 1) × ((n.conn_closes ≢ 0) → Step ended n n))
run-oneshot {labels} {n} steps =
    let g = run-IsSound 0 steps (record { one = refl; once = refl; told = λ m. absurd (m refl) }) in
    (at_most n.ch g.one, (once n.done g.once, λ c. accept_ended (g.told c)))
  where
    at_most : (b : Bool) → (0 + hand_outs labels) + one_if b ≡ 1 → hand_outs labels ≤ 1
    at_most true e = omega (arith, e)
    at_most false e = omega (arith, e)

    once : (b : Bool) → n.done_closes ≡ one_if b → n.done_closes ≤ 1
    once true e = omega (arith, e)
    once false e = omega (arith, e)
