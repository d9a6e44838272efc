-- ===== src/LiveUi/Ring.antt =====
-- What the ring holds.
use Prim.Native.Nat.{ℕ, zero, suc, ◌+◌, ◌-◌, ◌≤◌}
use mathlib.Core.Path.{◌≡◌, refl, sym, ap, ◌∙◌}
use mathlib.Core.Option.{Option, none}
use mathlib.Core.List.{List, [], ◌∷◌, ◌++◌}
use aitori.Base.{
  Bool, true, false, ltb, length, length-append, drop, if◌then◌else◌, arith, Bool-cases, inl, inr,
}
use aitori.Observe.{Exchange, maybe_redact}
use aitori.LiveUi.{
  Server, ring_cap, trim, Step, recording, closing, subscribing, unsubscribing, receiving, new,
  step, run, record_exchange, subscribe,
}

drop-nil : (n : ℕ) → drop {A = Exchange} n [] ≡ []
drop-nil zero = refl
drop-nil (suc n) = refl

drop-drop : (m n : ℕ) (xs : List Exchange) → drop m (drop n xs) ≡ drop (n + m) xs
drop-drop m zero xs = ap (λ k. drop k xs) (omega arith)
drop-drop m (suc n) [] = drop-nil m ∙ sym (drop-nil (suc n + m))
drop-drop m (suc n) (x ∷ xs) = drop-drop m n xs ∙ drop_at (omega arith)
  where
    drop_at : {k : ℕ} → k ≡ suc (n + m) → drop (n + m) xs ≡ drop k (x ∷ xs)
    drop_at e = rw e refl

drop-append : (n : ℕ) (xs ys : List Exchange) → n ≤ length xs → drop n (xs ++ ys) ≡ drop n xs ++ ys
drop-append zero xs ys h = refl
drop-append (suc n) [] ys h = absurd (omega arith)
drop-append (suc n) (x ∷ xs) ys h = drop-append n xs ys (omega arith)

length-drop : (n : ℕ) (xs : List Exchange) → length (drop n xs) ≡ length xs - n
length-drop zero xs = omega arith
length-drop (suc n) [] = omega arith
length-drop (suc n) (x ∷ xs) = omega (arith, length-drop n xs)

drop_none : (n : ℕ) (xs : List Exchange) → n ≡ 0 → xs ≡ drop n xs
drop_none zero xs h = refl
drop_none (suc n) xs h = absurd (omega arith)

drop_same : (m n : ℕ) (xs : List Exchange) → m ≡ n → drop m xs ≡ drop n xs
drop_same m n xs h = ap (λ k. drop k xs) h

-- The newest of the exchanges, as many as the ring may hold.
abbrev pub newest : List Exchange → List Exchange
newest es = drop (length es - ring_cap) es

over_cap : (es : List Exchange) → ltb ring_cap (length es) ≡ true → suc ring_cap ≤ length es
over_cap es h = ground arith

within_cap : (es : List Exchange) → ltb ring_cap (length es) ≡ false → length es - ring_cap ≡ 0
within_cap es h = ground arith

trim_lem : (ring : List Exchange) → trim ring ≡ newest ring
unfolding trim
trim_lem ring = elim (Bool-cases (ltb ring_cap (length ring))) [
  | inl over ↦ rw over refl
  | inr fits ↦ rw fits (drop_none _ ring (within_cap ring fits))
]

newest-append :
    (es : List Exchange) (e : Exchange) → newest (newest es ++ e ∷ []) ≡ newest (es ++ e ∷ [])
newest-append es e = elim (Bool-cases (ltb ring_cap (length es))) [
  | inl over ↦
      let old = length es - ring_cap in
      let shorter = length-drop old es in
      drop_same _ 1 (drop old es ++ e ∷ [])
        (omega (arith, shorter, length-append (drop old es) (e ∷ []), over_cap es over))
      ∙ (ap (drop 1) (sym (drop-append old es (e ∷ []) (omega arith)))
          ∙ (drop-drop 1 old (es ++ e ∷ [])
              ∙ drop_same _ _ (es ++ e ∷ [])
                  (omega (arith, length-append es (e ∷ []), over_cap es over))))
  | inr fits ↦ ap (λ r. newest (r ++ e ∷ [])) (sym (drop_none _ es (within_cap es fits)))
]

-- The exchanges that a server accepts over some steps: all that are recorded before it is closed,
-- redacted as it says.
unfoldable pub accepted : Bool → List Step → List Exchange
accepted redact [] = []
accepted redact (recording e ∷ xs) = maybe_redact e redact ∷ accepted redact xs
accepted redact (closing ∷ xs) = []
accepted redact (subscribing ∷ xs) = accepted redact xs
accepted redact (unsubscribing id ∷ xs) = accepted redact xs
accepted redact (receiving id ∷ xs) = accepted redact xs

stay : (b : Bool) (s t : Server) → b ≡ true → (if b then s else t) ≡ s
stay b s t h = rw h refl

stay_pair :
    (b : Bool) (s t : Server) (o p : Option ℕ)
    → b ≡ true
    → (if◌then◌else◌ {A = Server × Option ℕ} b (s, o) (t, p)).0 ≡ s
stay_pair b s t o p h = rw h refl

step-closed :
    (x : Step) (s : Server)
    → s.closed ≡ true
    → ((step x s).closed ≡ true) × ((step x s).ring ≡ s.ring)
unfolding step
step-closed (recording e) s h =
    let same = stay s.closed s _ h in (ap (λ t. t.closed) same ∙ h, ap (λ t. t.ring) same)
step-closed closing s h =
    let same = stay s.closed s _ h in (ap (λ t. t.closed) same ∙ h, ap (λ t. t.ring) same)
step-closed subscribing s h =
    let same = stay_pair s.closed s _ none _ h in
    (ap (λ t. t.closed) same ∙ h, ap (λ t. t.ring) same)
step-closed (unsubscribing id) s h = (h, refl)
step-closed (receiving id) s h = (h, refl)

run-closed : (xs : List Step) (s : Server) → s.closed ≡ true → (run xs s).ring ≡ s.ring
unfolding run
run-closed [] s h = refl
run-closed (x ∷ xs) s h = let kept = step-closed x s h in run-closed xs (step x s) kept.0 ∙ kept.1

go_on : (b : Bool) (s t : Server) → b ≡ false → (if b then s else t) ≡ t
go_on b s t h = rw h refl

go_on_pair :
    (b : Bool) (s t : Server) (o p : Option ℕ)
    → b ≡ false
    → (if◌then◌else◌ {A = Server × Option ℕ} b (s, o) (t, p)).0 ≡ t
go_on_pair b s t o p h = rw h refl

append-nil : (xs : List Exchange) → xs ++ [] ≡ xs
append-nil [] = refl
append-nil (x ∷ xs) = ap (λ r. x ∷ r) (append-nil xs)

append_assoc : (xs ys zs : List Exchange) → (xs ++ ys) ++ zs ≡ xs ++ (ys ++ zs)
append_assoc [] ys zs = refl
append_assoc (x ∷ xs) ys zs = ap (λ r. x ∷ r) (append_assoc xs ys zs)

run-ring_from :
    (xs : List Step) (s : Server) (es : List Exchange)
    → s.closed ≡ false
    → s.ring ≡ newest es
    → (run xs s).ring ≡ newest (es ++ accepted s.redact xs)
unfolding run step record_exchange subscribe accepted
run-ring_from [] s es h k = k ∙ ap newest (sym (append-nil es))
run-ring_from (recording e ∷ xs) s es h k =
    let kept = maybe_redact e s.redact in
    ap (λ t. (run xs t).ring) (go_on s.closed s _ h)
    ∙ (run-ring_from xs _ (es ++ kept ∷ []) h (
          trim_lem (s.ring ++ kept ∷ [])
          ∙ (ap (λ r. newest (r ++ kept ∷ [])) k ∙ newest-append es kept))
        ∙ ap newest (append_assoc es (kept ∷ []) (accepted s.redact xs)))
run-ring_from (closing ∷ xs) s es h k =
    ap (λ t. (run xs t).ring) (go_on s.closed s _ h)
    ∙ (run-closed xs (record s { closed = true; subs = [] }) refl
        ∙ (k ∙ ap newest (sym (append-nil es))))
run-ring_from (subscribing ∷ xs) s es h k =
    ap (λ t. (run xs t).ring) (go_on_pair s.closed s _ none _ h) ∙ run-ring_from xs _ es h k
run-ring_from (unsubscribing id ∷ xs) s es h k = run-ring_from xs (step (unsubscribing id) s) es h k
run-ring_from (receiving id ∷ xs) s es h k = run-ring_from xs (step (receiving id) s) es h k

-- Whatever requests, pages and the shutdown do, and in whatever order, the ring holds the newest
-- 500 of the exchanges recorded before the server was closed, in order and redacted as it says.
pub run-ring :
    (redact : Bool) (xs : List Step) → (run xs (new redact)).ring ≡ newest (accepted redact xs)
run-ring redact xs = run-ring_from xs (new redact) [] refl refl
