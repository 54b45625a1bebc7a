-- ===== src/Chunks/Received.antt =====
-- src/collaboration/transfer/downloader.rs: what a body that arrives without an error leaves behind,
-- and what a peer that honours ranges sends.
use x_videos_dowloads.Prelude.{
  ℕ, ◌+◌, ◌-◌, ◌≤◌, ◌<◌, ◌≡◌, ◌∙◌, List, [], ◌∷◌, ◌++◌, append-nil, append_assoc, ok, err, length,
  take, drop, length-append, arith,
}
use x_videos_dowloads.Chunks.{Stream, Ask, onwards, between, Peer, receive}

-- The bytes of a stream without an error.
abbrev pub Delivers : Stream → List ℕ → Type 0
Delivers [] bytes = bytes ≡ []
Delivers (ok chunk ∷ stream) bytes =
    (rest : List ℕ) × (bytes ≡ chunk ++ rest) × Delivers stream rest
Delivers (err e ∷ stream) bytes = ⊥

pub receive-Delivers :
    (stream : Stream) (bytes : List ℕ) (downloaded : ℕ) (file : List ℕ)
    → Delivers stream bytes
    → receive stream downloaded file ≡ (ok (downloaded + length bytes), file ++ bytes)
unfolding receive
receive-Delivers [] bytes downloaded file e =
    rw (e, append-nil file) (let z : downloaded + 0 ≡ downloaded = omega arith in rw z)
receive-Delivers (ok chunk ∷ stream) bytes downloaded file (rest, e, more) =
    let long : downloaded + length chunk + length rest ≡ downloaded + (length chunk + length rest) =
      omega arith in
    rw (e, length-append chunk rest)
      (receive-Delivers stream rest (downloaded + length chunk) (file ++ chunk) more
        ∙ rw (long, append_assoc file chunk rest))
receive-Delivers (err m ∷ stream) bytes downloaded file e = absurd e

-- The bytes that a range asks for.
abbrev pub part : List ℕ → Ask → List ℕ
part content (onwards start) = drop start content
part content (between start end) = take (end + 1 - start) (drop start content)

-- A range of a file of this size that is not empty.
abbrev pub IsSatisfiable : (size : ℕ) → Ask → Type 0
IsSatisfiable size (onwards start) = start < size
IsSatisfiable size (between start end) = (start < size) × (start ≤ end)

-- A peer with this file that answers every range that can be satisfied with the bytes asked for.
abbrev pub Honours : Peer → (content : List ℕ) → Type 0
Honours peer content =
    (ask : Ask)
    → IsSatisfiable (length content) ask
    → (stream : Stream) × (peer.get ask ≡ ok stream) × Delivers stream (part content ask)
