-- ===== src/MockGateway/Stream.antt =====
-- What the client gets of a response, and what the gateway captures of it.
use mathlib.Core.Path.{◌≡◌, refl, sym, ap, ◌∙◌}
use mathlib.Core.Option.{Option, some}
use mathlib.Core.List.{List, [], ◌∷◌, ◌++◌, append-nil, append_assoc}
use aitori.Base.{
  ℕ, zero, suc, ◌+◌, ◌-◌, ◌≤◌, arith, ltb, length, length-append, take, if◌then◌else◌,
}
use aitori.Base.Text.{Str}
use aitori.MockGateway.{capture, stream}
use aitori.MockGateway.Trace.{capture_cap}

-- All the pieces, one behind the other.
abbrev pub joined : List Str → Str
joined [] = []
joined (chunk ∷ chunks) = chunk ++ joined chunks

-- The pieces that are written.
abbrev pub writes : List Str → ℕ
writes [] = 0
writes ([] ∷ chunks) = writes chunks
writes ((c ∷ chunk) ∷ chunks) = suc (writes chunks)

kept_by : ℕ → Str → Str → Str
kept_by n kept chunk =
    if ltb 0 (n - length kept) then kept ++ take (n - length kept) chunk else kept

kept_by-suc :
    (n c : ℕ) (kept chunk : Str) → kept_by (suc n) (c ∷ kept) chunk ≡ c ∷ kept_by n kept chunk
unfolding kept_by
kept_by-suc n c kept chunk =
    let same : suc n - suc (length kept) ≡ n - length kept = omega arith in rw same (ground arith)

kept_by-nil : (n : ℕ) (chunk : Str) → kept_by (suc n) [] chunk ≡ take (suc n) chunk
unfolding kept_by
kept_by-nil n chunk = let same : suc n - 0 ≡ suc n = omega arith in rw same (ground arith)

kept_by-take :
    (n : ℕ) (before chunk : Str) → kept_by n (take n before) chunk ≡ take n (before ++ chunk)
unfolding kept_by
kept_by-take zero before chunk = refl
kept_by-take (suc n) [] chunk = kept_by-nil n chunk
kept_by-take (suc n) (c ∷ before) chunk =
    kept_by-suc n c (take n before) chunk ∙ ap (λ r. c ∷ r) (kept_by-take n before chunk)

capture-take :
    (before chunk : Str)
    → capture (take capture_cap before) chunk ≡ take capture_cap (before ++ chunk)
unfolding capture kept_by
capture-take before chunk = kept_by-take capture_cap before chunk

stream-joined :
    (chunks : List Str) (accepts : ℕ) (before : Str)
    → writes chunks ≤ accepts
    → stream accepts chunks (take capture_cap before) (length before) ≡ (
      joined chunks,
      some (take capture_cap (before ++ joined chunks), length (before ++ joined chunks)),
    )
unfolding stream
stream-joined [] accepts before h = rw (append-nil before) refl
stream-joined ([] ∷ chunks) accepts before h = stream-joined chunks accepts before h
stream-joined ((c ∷ chunk) ∷ chunks) zero before h = absurd (omega arith)
stream-joined ((c ∷ chunk) ∷ chunks) (suc accepts) before h =
    let next : Str × Option (Str × ℕ) → Str × Option (Str × ℕ) = λ r. ((c ∷ chunk) ++ r.0, r.1) in
    let kept = take capture_cap (before ++ c ∷ chunk) in
    ap (λ k. next (stream accepts chunks k (length before + length (c ∷ chunk))))
      (capture-take before (c ∷ chunk))
    ∙ ap (λ n. next (stream accepts chunks kept n)) (sym (length-append before (c ∷ chunk)))
    ∙ ap next (stream-joined chunks accepts (before ++ c ∷ chunk) (omega arith))
    ∙ ap (λ w. ((c ∷ chunk) ++ joined chunks, some (take capture_cap w, length w)))
        (append_assoc before (c ∷ chunk) (joined chunks))

-- If the client takes every piece that is not empty, it gets the whole body, and the loop ends with
-- the body's first 262144 bytes in the capture buffer and the number of all bytes, however the body
-- is cut into pieces.
pub stream-whole :
    (chunks : List Str) (accepts : ℕ)
    → writes chunks ≤ accepts
    → stream accepts chunks [] 0
      ≡ (joined chunks, some (take 262144 (joined chunks), length (joined chunks)))
stream-whole chunks accepts h = stream-joined chunks accepts [] h
