-- ===== src/Files/Served.antt =====
-- src/collaboration/transfer/http_server.rs: what `serve_file` announces and what it sends.
use x_videos_dowloads.Prelude.{
  ℕ, ◌+◌, ◌-◌, ◌^◌, ◌≤◌, ◌<◌, ◌≡◌, ap, ◌↔◌, ◌⊎◌, String, false, List, some, ltb, leb, min, length,
  arith, Bool-cases, inl, inr,
}
use x_videos_dowloads.Files.Serve.{
  partial_content, not_satisfiable, serve_file, serve_part, send_part, range_size, max_range_size,
}

-- The checks that a part has passed.
abbrev Passed : (start end : ℕ) → List ℕ → Type 0
Passed start end content =
    (start < length content) × (start ≤ end) × (range_size start end ≤ max_range_size)

serve_part-cases :
    (start end : ℕ) (h : String) (content : List ℕ)
    → (serve_part start end h content ≡ not_satisfiable h)
      ⊎ (start ≤ end)
        × (range_size start end ≤ max_range_size)
        × (serve_part start end h content ≡ send_part start end h content)
unfolding serve_part
serve_part-cases start end h content = elim (Bool-cases (ltb end start)) [
  | inl t ↦ inl (rw t)
  | inr f ↦ elim (Bool-cases (ltb max_range_size (range_size start end))) [
    | inl t ↦ inl (rw (f, t))
    | inr g ↦ inr (ground arith, ground arith, rw (f, g))
  ]
]

serve_file-cases :
    (start end : ℕ) (h : String) (content : List ℕ)
    → (serve_file (some (start, some end)) h content ≡ not_satisfiable h)
      ⊎ Passed start end content
        × (serve_file (some (start, some end)) h content ≡ send_part start end h content)
unfolding serve_file
serve_file-cases start end h content = elim (Bool-cases (leb (length content) start)) [
  | inl t ↦ inl (rw t)
  | inr f ↦ elim (serve_part-cases start end h content) [
    | inl e ↦ inl (rw f e)
    | inr (a, b, e) ↦ inr ((ground arith, a, b), rw f e)
  ]
]

send_part_bounds :
    (start end announced first last size : ℕ) (h h' : String) (content body : List ℕ)
    → Passed start end content
    → end - start + 1 < 2 ^ 64
    → send_part start end h content ≡ partial_content announced first last size h' body
    → (first ≡ start)
      × (first ≤ last)
      × (last ≤ end)
      × (last < length content)
      × (size ≡ length content)
      × (announced ≡ last - first + 1)
      × (announced ≤ max_range_size)
send_part_bounds start end announced first last size h h' content body (a, b, c) fits e =
    let whole : range_size start end ≡ end - start + 1 = omega arith in
    let at_first : start ≡ first = cc e in
    let at_last : min end (length content - 1) ≡ last = cc e in
    let at_size : length content ≡ size = cc e in
    let at_length : min end (length content - 1) - start + 1 ≡ announced = cc e in
    ground (arith, whole, at_first, at_last, at_size, at_length, a, b, c)

-- A partial answer to `bytes=start-end` starts where it was asked to, ends at or before the end
-- asked for and inside the file, gives the size of the file, announces the length between its
-- bounds, and stays within 100 MiB, where the length asked for fits a `u64`.
pub serve_file_bounds :
    (start end announced first last size : ℕ) (h h' : String) (content body : List ℕ)
    → end - start + 1 < 2 ^ 64
    → serve_file (some (start, some end)) h content
      ≡ partial_content announced first last size h' body
    → (first ≡ start)
      × (first ≤ last)
      × (last ≤ end)
      × (last < length content)
      × (size ≡ length content)
      × (announced ≡ last - first + 1)
      × (announced ≤ max_range_size)
serve_file_bounds start end announced first last size h h' content body fits e =
    elim (serve_file-cases start end h content) [
      | inl refused ↦ absurd (cc (refused, e))
      | inr (passed, sent_so) ↦
          send_part_bounds start end announced first last size h h' content body passed fits
            (cc (sent_so, e))
    ]

-- The body of a partial answer to a range with an end is the whole file, so that it has the
-- announced length exactly where the range is the whole file.
pub serve_file_body :
    (start end announced first last size : ℕ) (h h' : String) (content body : List ℕ)
    → serve_file (some (start, some end)) h content
      ≡ partial_content announced first last size h' body
    → (body ≡ content) × ((announced ≡ length body) ↔ ((first ≡ 0) × (last + 1 ≡ size)))
serve_file_body start end announced first last size h h' content body e =
    elim (serve_file-cases start end h content) [
      | inl refused ↦ absurd (cc (refused, e))
      | inr ((a, b, c), sent_so) ↦
          let sent : send_part start end h content
              ≡ partial_content announced first last size h' body =
            cc (sent_so, e) in
          let at_first : start ≡ first = cc sent in
          let at_last : min end (length content - 1) ≡ last = cc sent in
          let at_size : length content ≡ size = cc sent in
          let at_length : min end (length content - 1) - start + 1 ≡ announced = cc sent in
          let at_body : content ≡ body = cc sent in
          let long : length content ≡ length body = ap length at_body in
          (cc at_body, ground (arith, at_first, at_last, at_size, at_length, long, a, b))
    ]

-- The range `bytes=0-18446744073709551615` of a file that is not empty, of any size up to 2 ^ 64
-- bytes, is answered with the whole file: its length wraps to 0, which passes the test against
-- 100 MiB.
pub serve_file_wraps :
    (h : String) (content : List ℕ)
    → 0 < length content
    → length content ≤ 2 ^ 64
    → serve_file (some (0, some (2 ^ 64 - 1))) h content
      ≡ partial_content (length content) 0 (length content - 1) (length content) h content
unfolding serve_file
serve_file_wraps h content some_byte small =
    let f : leb (length content) 0 ≡ false = ground arith in
    let last : min (2 ^ 64 - 1) (length content - 1) ≡ length content - 1 = omega arith in
    let full : length content - 1 - 0 + 1 ≡ length content = omega arith in
    rw (f, serve_part, last, full)
