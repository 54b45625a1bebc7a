-- ===== src/Chunks/Tests.antt =====
-- src/collaboration/transfer/downloader.rs on a file of five bytes and a peer that honours ranges.
use x_videos_dowloads.Prelude.{
  ℕ, ◌≡◌, refl, List, [], ◌∷◌, ◌++◌, none, some, ok, err, append-nil, sym, arith,
}
use x_videos_dowloads.Chunks.{
  Peer, resume_from, in_chunks, download_from_peer, download_parallel, download_file,
}
use x_videos_dowloads.Chunks.Received.{Honours, part}
use x_videos_dowloads.Chunks.Resume.{resume_from-completes, download_file-part}
use x_videos_dowloads.Chunks.Parallel.{in_chunks-prefix}
use x_videos_dowloads.Chunks.Head.{StoresNothing, download_from_peer-head}

abbrev video : List ℕ
video = 10 ∷ 11 ∷ 12 ∷ 13 ∷ 14 ∷ []

-- Sends what is asked for in one chunk.
abbrev pub honest : Peer
honest = record { head = ok (some 5); get = λ ask. ok (ok (part video ask) ∷ []) }

honest-Honours : Honours honest video
honest-Honours ask there =
    (ok (part video ask) ∷ [], refl, ([], sym (append-nil (part video ask)), refl))

completed : resume_from honest 5 (some (10 ∷ 11 ∷ [])) ≡ (ok 5, some video)
completed = resume_from-completes honest video 2 honest-Honours (omega arith)

-- Two connections for chunks of one byte: three bytes are missing, and the result is `Ok`.
cut_short : in_chunks honest 5 1 2 ≡ (ok 2, some (10 ∷ 11 ∷ []))
cut_short = in_chunks-prefix honest video 1 2 honest-Honours (omega arith)

-- Started anew from byte 3, the file lacks what came before.
from_the_third :
    (download_file honest 3 ≡ (ok 2, some (13 ∷ 14 ∷ [])))
    × ((10 ∷ 11 ∷ 12 ∷ []) ++ (13 ∷ 14 ∷ []) ≡ video)
from_the_third = download_file-part honest video 3 honest-Honours (omega arith)

-- The same peer, seen through `content_length()`.
abbrev over_reqwest : Peer
over_reqwest = record honest { head = ok (some 0) }

download_from_peer-head_example :
    StoresNothing none (download_from_peer over_reqwest none)
    × (download_parallel over_reqwest 1 2 none ≡ download_from_peer over_reqwest none)
    × (download_from_peer (record over_reqwest { get = λ ask. err "io" }) none
        ≡ download_from_peer over_reqwest none)
download_from_peer-head_example =
    download_from_peer-head over_reqwest (λ ask. err "io") 1 2 none refl
