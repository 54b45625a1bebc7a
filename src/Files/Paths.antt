-- ===== src/Files/Paths.antt =====
-- src/collaboration/transfer/http_server.rs: which files are registered, and which are sent.
use x_videos_dowloads.Prelude.{
  ℕ, ◌≡◌, String, Bool, true, false, not, List, [], ◌∷◌, Option, none, some, retain, All,
  All-append, All-retain, Bool-cases, inl, inr, ◌==◌, unwrap_or,
}
use x_videos_dowloads.Files.Cors.{get_origin_from_request}
use x_videos_dowloads.Files.Range.{parse_range}
use x_videos_dowloads.Files.Serve.{Response, partial_content, whole, serve_file, build_cors_headers}
use x_videos_dowloads.Files.Server.{
  FileServer, FileSystem, new_server, is_below, register_canonical, register_file, unregister_file,
  get_file, requested_task, first_line,
}

-- The response carries bytes of a file.
abbrev pub sends_file : Response → Bool
sends_file (partial_content l a b n h body) = true
sends_file (whole l h body) = true
sends_file _ = false

-- The answer to these lines: the bytes of the file that is registered for the task of the request
-- line, by way of a path that lies below the directory.
abbrev pub Allowed :
    FileSystem
    → (parse_uuid : String → Option ℕ) (host_of : String → Option (Option String)) → List String
    → FileServer
    → Response
    → Type 0
Allowed fs parse_uuid host_of lines s r =
    (task_id : ℕ) × (path : List String) × (real : List String) × (base : List String)
    × (bytes : List ℕ) × (requested_task fs parse_uuid host_of
          (first_line fs parse_uuid host_of lines)
        ≡ some task_id)
    × (get_file task_id s ≡ some path)
    × (fs.resolve path ≡ some real)
    × (fs.base ≡ some base)
    × (is_below base real ≡ true)
    × (fs.content path ≡ some bytes)
    × (r
        ≡ serve_file (parse_range lines)
            (build_cors_headers (unwrap_or (get_origin_from_request lines) "")) bytes)

module _ (fs : FileSystem) (parse_uuid : String → Option ℕ)
    (host_of : String → Option (Option String)) where
  -- What a request for this path sends.
  abbrev Sent : List String → (origin : String) → List String → Response → Type 0
  Sent lines origin path r =
      (real : List String) × (base : List String) × (bytes : List ℕ) × (fs.resolve path ≡ some real)
      × (fs.base ≡ some base)
      × (is_below base real ≡ true)
      × (fs.content path ≡ some bytes)
      × (r ≡ serve_file (parse_range lines) (build_cors_headers origin) bytes)

-- A change of the registered files.
pub data Change : Type 0 where
  register : (task_id : ℕ) (path : String) → Change
  unregister : (task_id : ℕ) → Change

unfoldable pub changed : FileSystem → List Change → FileServer → FileServer
changed fs [] s = s
changed fs (register task_id path ∷ cs) s = changed fs cs (register_file fs task_id path s).1
changed fs (unregister task_id ∷ cs) s = changed fs cs (unregister_file task_id s)

register_canonical-below :
    (task_id : ℕ) (path : Option (List String)) (base : List String) (s : FileServer)
    → All (λ (e : ℕ × List String). is_below base e.1 ≡ true) s.files
    → All
        (λ (e : ℕ × List String). is_below base e.1 ≡ true)
        (register_canonical task_id path (some base) s).1.files
unfolding register_canonical
register_canonical-below task_id none base s h = h
register_canonical-below task_id (some path) base s h = elim (Bool-cases (is_below base path)) [
  | inl t ↦ rw t (
      All-append _ (retain (λ (e : ℕ × List String). not (e.0 == task_id)) s.files) _
        (All-retain _ _ s.files h) (t, tt))
  | inr f ↦ rw f h
]

changed-below :
    (fs : FileSystem) (base : List String) (cs : List Change) (s : FileServer)
    → fs.base ≡ some base
    → All (λ (e : ℕ × List String). is_below base e.1 ≡ true) s.files
    → All (λ (e : ℕ × List String). is_below base e.1 ≡ true) (changed fs cs s).files
unfolding changed register_file unregister_file
changed-below fs base [] s at h = h
changed-below fs base (register task_id path ∷ cs) s at h =
    changed-below fs base cs (register_file fs task_id path s).1 at
      (rw at (register_canonical-below task_id (fs.canonicalize path) base s h))
changed-below fs base (unregister task_id ∷ cs) s at h =
    changed-below fs base cs (unregister_file task_id s) at (All-retain _ _ s.files h)

-- Whatever paths are registered and unregistered, in whatever order, on a server that is new,
-- the canonical path of every registered file lies below the directory.
pub register_file-below :
    (fs : FileSystem) (base : List String) (cs : List Change)
    → fs.base ≡ some base
    → All (λ (e : ℕ × List String). is_below base e.1 ≡ true) (changed fs cs new_server).files
register_file-below fs base cs at = changed-below fs base cs new_server at tt
