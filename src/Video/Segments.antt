-- ===== src/Video/Segments.antt =====
-- src/downloader.rs: the segments of a host that honours ranges, put together.
use native.Mathlib.Nat.{add-mul, suc-mul}
use x_videos_dowloads.Prelude.{
  ℕ, zero, suc, ◌+◌, ◌-◌, ◌*◌, ◌≤◌, ◌<◌, ◌≡◌, sym, ap, ◌∙◌, true, false, List, [], append-nil,
  length, take, drop, take-append-drop, drop-drop, length-drop, take_all, ◌==◌, arith, Bool-cases,
  inl, inr,
}
use x_videos_dowloads.Video.{
  Host, between, fetch_segments, segment_end, success_count, merge_segments,
}
use x_videos_dowloads.Video.Ranges.{HonoursRanges, asked_bytes, fetch_segment-Sends}

-- The last segment goes to the end of the content, and the others are slices of one size.
last_slice :
    (content : List ℕ) (segments c i : ℕ)
    → i + 1 ≡ segments
    → 0 < length content
    → asked_bytes content (between (i * c) (segment_end (length content) segments c i))
      ≡ drop (i * c) content
last_slice content segments c i last some_byte =
    let here : (i == segments - 1) ≡ true = ground arith in
    rw here (
      take_all (length content - 1 + 1 - i * c) (drop (i * c) content)
        (omega (arith, length-drop (i * c) content)))

inner_slice :
    (content : List ℕ) (segments c i : ℕ)
    → i + 1 < segments
    → 0 < c
    → asked_bytes content (between (i * c) (segment_end (length content) segments c i))
      ≡ take c (drop (i * c) content)
inner_slice content segments c i inner positive =
    let here : (i == segments - 1) ≡ false = ground arith in
    let size : suc i * c - 1 + 1 - i * c ≡ c = omega (arith, suc-mul i c) in rw (here, size)

pub begins : (i rounds c total : ℕ) → (i + suc rounds) * c < total + c → i * c < total
begins i rounds c total h =
    let next : (i + suc rounds) * c ≡ (suc i + rounds) * c = ap (λ k. k * c) (omega arith) in
    omega (arith, h, next, add-mul (suc i) rounds c, suc-mul i c)

pub ends : (total segments c i : ℕ) → 0 < c → i * c < total → i * c ≤ segment_end total segments c i
ends total segments c i positive inside = elim (Bool-cases (i == segments - 1)) [
  | inl t ↦ rw t (omega arith)
  | inr f ↦ rw f (omega (arith, suc-mul i c))
]

pub fetch_segments-HonoursRanges :
    (host : Host) (content : List ℕ) (segments c retry_count i rounds : ℕ)
    → HonoursRanges host content
    → 0 < c
    → (i + suc rounds) * c < length content + c
    → i + suc rounds ≡ segments
    → let parts = fetch_segments host (length content) segments c retry_count i (suc rounds) in
      (merge_segments parts ≡ drop (i * c) content) × (success_count parts ≡ suc rounds)
unfolding fetch_segments success_count merge_segments
fetch_segments-HonoursRanges host content segments c retry_count i zero h positive inside count =
    let start = i * c in
    let end = segment_end (length content) segments c i in
    let before_end = begins i 0 c (length content) inside in
    let order = ends (length content) segments c i positive before_end in
    let one =
      fetch_segment-Sends host (length content) (asked_bytes content) start end retry_count 0 [] h
        (before_end, order) in
    let slice = last_slice content segments c i (omega arith) (omega arith) in
    (rw (one, slice) (append-nil (drop start content)), rw one)
fetch_segments-HonoursRanges host content segments c retry_count i (suc rounds) h positive inside
      count =
    let start = i * c in
    let end = segment_end (length content) segments c i in
    let before_end = begins i (suc rounds) c (length content) inside in
    let order = ends (length content) segments c i positive before_end in
    let one =
      fetch_segment-Sends host (length content) (asked_bytes content) start end retry_count 0 [] h
        (before_end, order) in
    let slice = inner_slice content segments c i (omega arith) positive in
    let further : (suc i + suc rounds) * c ≡ (i + suc (suc rounds)) * c =
      ap (λ k. k * c) (omega arith) in
    let more =
      fetch_segments-HonoursRanges host content segments c retry_count (suc i) rounds h positive
        (omega (arith, further, inside)) (omega arith) in
    let shifted : drop (suc i * c) content ≡ drop c (drop start content) =
      ap (λ (k : ℕ). drop k content) (suc-mul i c) ∙ sym (drop-drop start c content) in
    (rw (one, slice, more.0, shifted) (take-append-drop c (drop start content)), rw (one, more.1))
