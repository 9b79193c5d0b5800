-- ===== src/Context/Window.antt =====
-- `window` of src/service/detect/context.rs.
use alfavibe_hack.Prelude.{
  ℕ, zero, suc, ◌-◌, ◌≤◌, ◌≡◌, refl, true, some, Text, arith, Bool-cases, inl, inr, length, min,
  slice, slice?, is_char_boundary,
}
use alfavibe_hack.Domain.Document.{align_from}
use alfavibe_hack.Domain.Document.Boundaries.{
  align_from-boundary, align_from-ge, align_from-least, boundary_end,
}
use alfavibe_hack.Context.{align_back, window, window_end, window_start}

align_back-le : (norm : Text) (s : ℕ) → align_back norm s ≤ s
unfolding align_back
align_back-le norm zero = omega arith
align_back-le norm (suc s) = ground (arith, align_back-le norm s)

align_back-boundary : (norm : Text) (s : ℕ) → is_char_boundary norm (align_back norm s) ≡ true
unfolding align_back is_char_boundary
align_back-boundary norm zero = refl
align_back-boundary norm (suc s) = elim (Bool-cases (is_char_boundary norm (suc s))) [
  | inl here ↦ rw (here, here) refl
  | inr before ↦ rw before (align_back-boundary norm s)
]

window-slice :
    (norm : Text) (s e : ℕ)
    → s ≤ e
    → e ≤ length norm
    → is_char_boundary norm s ≡ true
    → is_char_boundary norm e ≡ true
    → slice? s e norm ≡ some (slice s e norm)
unfolding slice?
window-slice norm s e le top at_s at_e = ground arith

-- For a start that is not behind the end, `window` does not panic, and what it returns reaches from
-- the start or before it to the end or behind it, as far as the text goes.
pub window_total :
    (norm : Text) (start end : ℕ)
    → start ≤ end
    → (window norm start end ≡ some (slice (window_start norm start) (window_end norm end) norm))
      × (window_start norm start ≤ start)
      × (min end (length norm) ≤ window_end norm end)
      × (window_end norm end ≤ length norm)
unfolding window window_start window_end
window_total norm start end le =
    let s = min start (length norm) in
    let e = min end (length norm) in
    let back = align_back-le norm s in
    let forth = align_from-ge norm (length norm - e) e in
    let top =
      align_from-least norm (length norm - e) e (length norm) (omega arith) (boundary_end norm) in
    (
      window-slice norm (align_back norm s) (align_from norm (length norm - e) e) (omega arith) top
          (align_back-boundary norm s) (align_from-boundary norm (length norm - e) e (omega arith)),
      omega arith,
      forth,
      top,
    )
