-- ===== src/Chunks/Parallel.antt =====
-- src/collaboration/transfer/downloader.rs: the chunks of `download_parallel`, put together.
use native.Mathlib.Nat.{add-mul, suc-mul, zero-mul, div-add-mod', mod-lt, mul-le-mul_right}
use x_videos_dowloads.Prelude.{
  ℕ, zero, suc, ◌+◌, ◌-◌, ◌*◌, ◌≤◌, ◌<◌, ◌≡◌, refl, sym, ap, ◌∙◌, List, [], ◌++◌, some, ok, leb,
  length, take, drop, length-append, length-take, length-drop, take-add, take-min, drop-drop, arith,
  min, take_all, Bool-cases, inl, inr,
}
use x_videos_dowloads.Chunks.{
  Peer, between, store_chunk, download_chunk, chunk_bounds, download_chunks, merge_chunks,
  total_downloaded, in_chunks, num_started, div_ceil,
}
use x_videos_dowloads.Chunks.Received.{Honours, receive-Delivers}

-- A chunk of an honest peer is the slice of the file at its place.
download_chunk-slice :
    (peer : Peer) (content : List ℕ) (c i : ℕ)
    → Honours peer content
    → 0 < c
    → i * c < length content
    → let slice = take c (drop (i * c) content) in
      download_chunk peer (chunk_bounds (length content) c i) ≡ (ok (length slice), some slice)
unfolding store_chunk
download_chunk-slice peer content c i h positive inside =
    let start = i * c in
    let end = min (start + c - 1) (length content - 1) in
    let (stream, got, delivers) = h (between start end) (inside, omega arith) in
    let asked : end + 1 - start ≡ min c (length (drop start content)) =
      omega (arith, length-drop start content) in
    let slice : take (end + 1 - start) (drop start content) ≡ take c (drop start content) =
      ap (λ n. take n (drop start content)) asked ∙ take-min c (drop start content) in
    rw
      (
        got,
        receive-Delivers stream (take (end + 1 - start) (drop start content)) 0 [] delivers,
        slice,
      )
      (let z : 0 + length (take c (drop start content)) ≡ length (take c (drop start content)) =
          omega arith in
        rw z)

download_chunks-slice :
    (peer : Peer) (content : List ℕ) (c i n : ℕ)
    → Honours peer content
    → 0 < c
    → (i + n) * c < length content + c
    → let chunks = download_chunks peer (length content) c i n in
      let slice = take (n * c) (drop (i * c) content) in
      (merge_chunks chunks ≡ slice) × (total_downloaded chunks ≡ length slice)
unfolding download_chunks merge_chunks total_downloaded
download_chunks-slice peer content c i zero h positive inside = rw (zero-mul c) (refl, refl)
download_chunks-slice peer content c i (suc n) h positive inside =
    let rest = drop (i * c) content in
    let next : (suc i + n) * c ≡ (i + suc n) * c = ap (λ k. k * c) (omega arith) in
    let behind : (i + suc n) * c ≡ i * c + c + n * c =
      sym next ∙ add-mul (suc i) n c ∙ ap (λ k. k + n * c) (suc-mul i c) in
    let one = download_chunk-slice peer content c i h positive (omega (arith, behind)) in
    let more =
      download_chunks-slice peer content c (suc i) n h positive (omega (arith, next, inside)) in
    let shifted : drop (suc i * c) content ≡ drop c rest =
      ap (λ k. drop k content) (suc-mul i c) ∙ sym (drop-drop (i * c) c content) in
    let all : take (suc n * c) rest ≡ take c rest ++ take (n * c) (drop c rest) =
      ap (λ k. take k rest) (suc-mul n c ∙ omega arith) ∙ take-add c (n * c) rest in
    (
      rw (one, more.0, shifted, all),
      rw (one, more.1, shifted, all, length-append (take c rest) (take (n * c) (drop c rest))),
    )

div_ceil-covers : (a b : ℕ) → 0 < b → a ≤ div_ceil a b * b
div_ceil-covers a b h = omega (arith, div-add-mod' (a + (b - 1)) b, mod-lt (a + (b - 1)) h)

-- No chunk that is started begins behind the end.
started-inside : (a c n : ℕ) → 0 < c → num_started a c n * c < a + c
started-inside a c n h =
    let few = mul-le-mul_right {m = num_started a c n} {n = div_ceil a c} c (omega arith) in
    omega (arith, few, div-add-mod' (a + (c - 1)) c)

-- The chunks that are started reach as far as the connections do.
started :
    (content : List ℕ) (c n : ℕ)
    → 0 < c
    → take (num_started (length content) c n * c) content ≡ take (n * c) content
started content c n h = elim (Bool-cases (leb n (div_ceil (length content) c))) [
  | inl few ↦ let e : num_started (length content) c n ≡ n = ground arith in rw e
  | inr many ↦
      let e : num_started (length content) c n ≡ div_ceil (length content) c = ground arith in
      let covers = div_ceil-covers (length content) c h in
      let more : div_ceil (length content) c * c ≤ n * c = mul-le-mul_right c (ground arith) in
      rw (e, take_all (div_ceil (length content) c * c) content covers)
        (sym (take_all (n * c) content (omega (arith, covers, more))))
]

-- Given the length of the file, the chunks that are started hold its first
-- `num_connections * chunk_size` bytes, so the file is whole only where these are all.
pub in_chunks-prefix :
    (peer : Peer) (content : List ℕ) (chunk_size num_connections : ℕ)
    → Honours peer content
    → 0 < chunk_size
    → in_chunks peer (length content) chunk_size num_connections ≡ (
      ok (min (num_connections * chunk_size) (length content)),
      some (take (num_connections * chunk_size) content),
    )
unfolding in_chunks
in_chunks-prefix peer content c n h positive =
    let k = num_started (length content) c n in
    let chunks = download_chunks-slice peer content c 0 k h positive (
      let z : (0 + k) * c ≡ k * c = ap (λ j. j * c) (omega arith) in
      omega (arith, z, started-inside (length content) c n positive)) in
    let first : drop (0 * c) content ≡ content = rw (zero-mul c) in
    let reach = started content c n positive in
    rw (chunks.0, chunks.1, first, reach, length-take (n * c) content)
