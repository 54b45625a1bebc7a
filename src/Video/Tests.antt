-- ===== src/Video/Tests.antt =====
-- src/downloader.rs on hosts with a content of four bytes, and on one with a large content.
use native.Mathlib.Nat.{div-add-mod', mod-lt}
use x_videos_dowloads.Prelude.{
  ◌<◌, ℕ, zero, suc, ◌+◌, ◌-◌, ◌*◌, ◌/◌, ◌≤◌, ◌≡◌, refl, sym, true, List, [], ◌∷◌, append-nil, none,
  some, ok, err, length, arith,
}
use x_videos_dowloads.Media.{succeeded}
use x_videos_dowloads.Video.{
  DownloaderConfig, default_config, Host, download, resume_download, try_download, do_download,
  save_body, delay_secs,
}
use x_videos_dowloads.Video.Ranges.{HonoursRanges, IgnoresRanges, asked_bytes}
use x_videos_dowloads.Video.Ceil.{IsCeil}
use x_videos_dowloads.Video.Recovers.{Fails, waited, download-whole, download-head_error}
use x_videos_dowloads.Video.Ignored.{copies, download-copies}
use x_videos_dowloads.Video.Retry.{download_wait}
use x_videos_dowloads.Video.Resumed.{resume_download-both}

-- The exact quotient, rounded up.
abbrev ceil : ℕ → ℕ → ℕ
ceil a b = (a + (b - 1)) / b

abbrev video : List ℕ
video = 10 ∷ 11 ∷ 12 ∷ 13 ∷ []

abbrev honest : List ℕ → Host
honest content = record {
  head = λ n. ok (true, some (length content));
  get = λ n ask. ok (true, ok (asked_bytes content ask) ∷ []);
}

honest-HonoursRanges : (content : List ℕ) → HonoursRanges (honest content) content
honest-HonoursRanges content = record {
  tells = λ n. refl;
  sends = λ n ask inside. (
    ok (asked_bytes content ask) ∷ [],
    refl,
    ([], sym (append-nil (asked_bytes content ask)), refl),
  );
}

abbrev careless : List ℕ → Host
careless content = record {
  head = λ n. ok (true, some (length content));
  get = λ n ask. ok (true, ok content ∷ []);
}

careless-IgnoresRanges : (content : List ℕ) → IgnoresRanges (careless content) content
careless-IgnoresRanges content = record {
  tells = λ n. refl;
  sends = λ n ask inside. (ok content ∷ [], refl, ([], sym (append-nil content), refl));
}

resume_download-both_example :
    (resume_download "a.mp4" 0 (honest video) 2 (some (10 ∷ 11 ∷ []))
      ≡ (ok (succeeded "a.mp4" 4 0), some video))
    × (resume_download "a.mp4" 0 (careless video) 2 (some (10 ∷ 11 ∷ []))
        ≡ (ok (succeeded "a.mp4" 6 0), some (10 ∷ 11 ∷ video)))
resume_download-both_example =
    resume_download-both "a.mp4" 0 2 (honest video) (careless video) video
      (honest-HonoursRanges video) (careless-IgnoresRanges video) (omega arith) (omega arith)

ceil-IsCeil : IsCeil ceil
ceil-IsCeil a b small positive =
    let whole = div-add-mod' (a + (b - 1)) b in
    let part = mod-lt (a + (b - 1)) positive in
    (omega (arith, whole, part), omega (arith, whole, part))

-- One segment to a file of four bytes; three attempts.
abbrev single : DownloaderConfig
single = record default_config { parallel_segments = 1; retry_count = 3 }

-- A host that answers HEAD and then breaks off.
abbrev broken : Host
broken = record { head = λ n. ok (true, some 4); get = λ n ask. err "connection reset" }

broken-Fails : Fails ceil single "a.mp4" 7 broken
unfolding try_download do_download save_body
broken-Fails = record {
  size = some 4;
  error = "connection reset";
  told = refl;
  tried = λ output. refl;
}

-- The host is back at the second attempt, after one second.
abbrev back_soon : ℕ → Host
back_soon zero = broken
back_soon (suc n) = honest video

broken_before : (i : ℕ) → i < 1 → Fails ceil single "a.mp4" 7 (back_soon i)
broken_before zero h = broken-Fails
broken_before (suc i) h = absurd (omega arith)

download-whole_example :
    (duration_secs : ℕ) × (download ceil single "a.mp4" 7 back_soon none ≡ (
      (ok (succeeded "a.mp4" 4 duration_secs), some video),
      waited ceil single "a.mp4" 7 1 0 + delay_secs ceil single "a.mp4" 7 1,
    ))
download-whole_example =
    download-whole ceil single "a.mp4" 7 back_soon 1 video none ceil-IsCeil (omega arith)
      broken_before (honest-HonoursRanges video) (omega arith) (omega arith)

one_second : waited ceil single "a.mp4" 7 1 0 + delay_secs ceil single "a.mp4" 7 1 ≡ 1
unfolding waited
one_second = refl

zeros : ℕ → List ℕ
zeros zero = []
zeros (suc n) = 0 ∷ zeros n

length-zeros : (n : ℕ) → length (zeros n) ≡ n
unfolding zeros
length-zeros zero = refl
length-zeros (suc n) = rw (length-zeros n)

-- More than ten megabytes, in the four segments of the default configuration.
abbrev large : List ℕ
large = zeros 10485761

download-copies_example :
    download ceil default_config "a.mp4" 7 (λ attempt. careless large) none
    ≡ ((ok (succeeded "a.mp4" (length large) 0), some (copies 4 large)), 0)
download-copies_example =
    let long = length-zeros 10485761 in
    download-copies ceil default_config "a.mp4" 7 (λ attempt. careless large) large none ceil-IsCeil
      (careless-IgnoresRanges large) (omega arith) (rw long) (omega (arith, long))
      (omega (arith, long))

-- A host that is never reached.
abbrev pub away : Host
away = record { head = λ n. err "timeout"; get = λ n ask. err "timeout" }

-- It is out of reach at the second attempt, and there again at the third.
abbrev in_and_out : ℕ → Host
in_and_out zero = broken
in_and_out (suc zero) = away
in_and_out (suc (suc n)) = honest video

broken_at_first : (i : ℕ) → i < 1 → Fails ceil single "a.mp4" 7 (in_and_out i)
broken_at_first zero h = broken-Fails
broken_at_first (suc i) h = absurd (omega arith)

download-head_error_example :
    download ceil single "a.mp4" 7 in_and_out none
    ≡ ((err "timeout", none), waited ceil single "a.mp4" 7 1 0 + delay_secs ceil single "a.mp4" 7 1)
download-head_error_example =
    download-head_error ceil single "a.mp4" 7 in_and_out 1 none "timeout" (omega arith)
      broken_at_first refl

at_most : (download ceil default_config "a.mp4" 7 in_and_out none).1 ≤ 5 * 30
at_most = download_wait ceil default_config "a.mp4" 7 in_and_out none
