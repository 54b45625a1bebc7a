-- ===== src/Chunks/Head.antt =====
-- src/collaboration/transfer/downloader.rs: downloads over `reqwest`, whose `content_length()` is the
-- size of a body and is documented as not known for the answer to a HEAD request.
use x_videos_dowloads.Prelude.{
  ℕ, ◌≡◌, refl, List, Option, none, some, Result, ok, err, inl, inr, ◌⊎◌, is_ok, false, arith, leb,
  length, unwrap_or, true, [], ◌*◌,
}
use x_videos_dowloads.Chunks.{Ask, Stream, Peer, resume_from, download_from_peer, download_parallel}

-- What `content_length()` may say of an answer that has no body: the request failed, the size is not
-- known, or it is 0.
abbrev pub IsBodiless : Result (Option ℕ) → Type 0
IsBodiless (err e) = Unit
IsBodiless (ok none) = Unit
IsBodiless (ok (some total_size)) = total_size ≡ 0

-- Nothing is stored, and the result is an error, or `Ok` with no bytes.
abbrev pub StoresNothing : (output : Option (List ℕ)) → Result ℕ × Option (List ℕ) → Type 0
StoresNothing output (result, after) = (after ≡ output) × ((is_ok result ≡ false) ⊎ (result ≡ ok 0))

at_zero :
    (head : Result (Option ℕ)) (get : Ask → Result Stream) (output : Option (List ℕ))
    → IsBodiless head
    → StoresNothing output (download_from_peer (record { head = head; get = get }) output)
unfolding download_from_peer resume_from
at_zero (err e) get output h = (refl, inl refl)
at_zero (ok none) get output h = (refl, inl refl)
at_zero (ok (some total_size)) get output h =
    let all : leb 0 (length (unwrap_or output [])) ≡ true = ground arith in
    rw (h, all) (refl, inr refl)

same_get :
    (head : Result (Option ℕ)) (get other : Ask → Result Stream) (output : Option (List ℕ))
    → IsBodiless head
    → download_from_peer (record { head = head; get = get }) output
      ≡ download_from_peer (record { head = head; get = other }) output
unfolding download_from_peer resume_from
same_get (err e) get other output h = refl
same_get (ok none) get other output h = refl
same_get (ok (some total_size)) get other output h =
    let all : leb 0 (length (unwrap_or output [])) ≡ true = ground arith in rw (h, all)

same_parallel :
    (head : Result (Option ℕ)) (get : Ask → Result Stream) (chunk_size num_connections : ℕ)
    (output : Option (List ℕ))
    → IsBodiless head
    → download_parallel (record { head = head; get = get }) chunk_size num_connections output
      ≡ download_from_peer (record { head = head; get = get }) output
unfolding download_parallel download_from_peer
same_parallel (err e) get chunk_size num_connections output h = refl
same_parallel (ok none) get chunk_size num_connections output h = refl
same_parallel (ok (some total_size)) get chunk_size num_connections output h =
    let small : leb 0 (chunk_size * 2) ≡ true = ground arith in rw (h, small)

-- Where `content_length()` of the answer to HEAD is what is documented of an answer without a body,
-- neither download stores a byte, whatever the peer would send: the output file stays as it was, or
-- missing, and the result is an error, or `Ok` with no bytes. Both give the same, and the same as with
-- any other answers to GET, which is not asked for.
pub download_from_peer-head :
    (peer : Peer) (other : Ask → Result Stream) (chunk_size num_connections : ℕ)
    (output : Option (List ℕ))
    → IsBodiless peer.head
    → StoresNothing output (download_from_peer peer output)
      × (download_parallel peer chunk_size num_connections output ≡ download_from_peer peer output)
      × (download_from_peer (record peer { get = other }) output ≡ download_from_peer peer output)
download_from_peer-head peer other chunk_size num_connections output h = (
  at_zero peer.head peer.get output h,
  same_parallel peer.head peer.get chunk_size num_connections output h,
  same_get peer.head other peer.get output h,
)
