-- ===== src/Files/Rate.antt =====
-- src/collaboration/transfer/http_server.rs: the limiter keeps to its limit in every window.
use x_videos_dowloads.Prelude.{
  ℕ, ◌+◌, ◌≤◌, ◌≡◌, refl, sym, ap, ◌∙◌, Bool, true, false, ◌&&◌, List, [], ◌∷◌, ◌++◌, leb, ◌==◌,
  if◌then◌else◌, retain, retain-append, unwrap_or, length, arith, append-nil, append_assoc,
  length-append, ==-self, Bool-cases, inl, inr, Option-cases,
}
use x_videos_dowloads.Files.Limiter.{
  RateLimiter, new_limiter, is_recent, stamps, is_allowed, unless_empty, cleanup,
}

-- A request of an address, or a run of the cleaning task.
pub data Call : Type 0 where
  request : (ip : ℕ) → Call
  cleaned : Call

-- The times of the requests of one address that a history lets through, oldest first, and the
-- limiter that it leaves.
unfoldable pub after_call : (now : ℕ) → Call → RateLimiter → RateLimiter
after_call now (request ip) l = (is_allowed now ip l).1
after_call now cleaned l = cleanup now l

abbrev pub let_through : (ip now : ℕ) → Call → RateLimiter → List ℕ
let_through ip now (request j) l = if (j == ip) && (is_allowed now j l).0 then now ∷ [] else []
let_through ip now cleaned l = []

abbrev pub accepted : ℕ → List (ℕ × Call) → RateLimiter → List ℕ
accepted ip [] l = []
accepted ip ((now, c) ∷ cs) l = let_through ip now c l ++ accepted ip cs (after_call now c l)

-- The times of a history ascend, from `now` to `last`.
abbrev pub Ordered : (now : ℕ) → List (ℕ × Call) → (last : ℕ) → Type 0
Ordered now [] last = now ≤ last
Ordered now ((t, c) ∷ cs) last = (now ≤ t) × Ordered t cs last

module _ {A : Type 0} (p q : A → Bool) (implies : (x : A) → q x ≡ true → p x ≡ true) where
  retain-retain : (xs : List A) → retain q (retain p xs) ≡ retain q xs
  retain-retain [] = refl
  retain-retain (x ∷ xs) =
      let rest = retain-retain xs in
      elim (Bool-cases (q x)) [
        | inl t ↦ rw (implies x t, t, rest)
        | inr f ↦ elim (Bool-cases (p x)) [ inl t ↦ rw (t, f, rest) | inr g ↦ rw (g, f, rest) ]
      ]

  length-retain_le : (xs : List A) → length (retain q xs) ≤ length (retain p xs)
  length-retain_le [] = omega arith
  length-retain_le (x ∷ xs) =
      let rest = length-retain_le xs in
      elim (Bool-cases (q x)) [
        | inl t ↦ rw (implies x t, t) (omega arith)
        | inr f ↦ elim (Bool-cases (p x)) [
          | inl t ↦ rw (t, f) (omega arith)
          | inr g ↦ rw (g, f) rest
        ]
      ]

recent_earlier :
    (w now later : ℕ)
    → now ≤ later
    → (t : ℕ) → is_recent w later t ≡ true
    → is_recent w now t ≡ true
recent_earlier w now later h t e = ground arith

-- What the limiter remembers of an address is what it let through within the window.
record Keeps (w m ip now : ℕ) (acc : List ℕ) (l : RateLimiter) : Type 0 where
  window : l.window_secs ≡ w
  limit : l.max_requests ≡ m
  agree : retain (is_recent w now) acc ≡ retain (is_recent w now) (stamps l ip)
  bound : length (retain (is_recent w now) acc) ≤ m

Keeps-later :
    (w m ip now later : ℕ) (acc : List ℕ) (l : RateLimiter)
    → now ≤ later
    → Keeps w m ip now acc l
    → Keeps w m ip later acc l
Keeps-later w m ip now later acc l h k =
    let earlier = recent_earlier w now later h in
    let shrink = retain-retain (is_recent w now) (is_recent w later) earlier in
    let less = length-retain_le (is_recent w now) (is_recent w later) earlier acc in
    record {
      window = k.window;
      limit = k.limit;
      agree = sym (shrink acc) ∙ ap (retain (is_recent w later)) k.agree ∙ shrink (stamps l ip);
      bound = omega (arith, less, k.bound);
    }

retain-idempotent : (p : ℕ → Bool) (xs : List ℕ) → retain p (retain p xs) ≡ retain p xs
retain-idempotent p xs = retain-retain p p (λ x e. e) xs

stamps-cleanup :
    (now ip : ℕ) (l : RateLimiter)
    → stamps (cleanup now l) ip ≡ retain (is_recent l.window_secs now) (stamps l ip)
unfolding cleanup
stamps-cleanup now ip l = elim (Option-cases (l.requests ip)) [
  | inl e ↦ rw e
  | inr (ts, e) ↦ rw e (same (retain (is_recent l.window_secs now) ts))
]
  where
    same : (ts : List ℕ) → unwrap_or (unless_empty ts) [] ≡ ts
    same [] = refl
    same (t ∷ ts) = refl

-- The limiter after a request of another address, or after its own.
stamps_other :
    (now ip j : ℕ) (l : RateLimiter)
    → (j == ip) ≡ false
    → stamps (is_allowed now j l).1 ip ≡ stamps l ip
unfolding is_allowed
stamps_other now ip j l h =
    let away : (ip == j) ≡ false = ground arith in
    elim (Bool-cases
      (leb l.max_requests (length (retain (is_recent l.window_secs now) (stamps l j))))) [
        | inl t ↦ rw (t, away)
        | inr f ↦ rw (f, away)
      ]

is_allowed-settings :
    (now j : ℕ) (l : RateLimiter)
    → ((is_allowed now j l).1.window_secs ≡ l.window_secs)
      × ((is_allowed now j l).1.max_requests ≡ l.max_requests)
unfolding is_allowed
is_allowed-settings now j l =
    elim (Bool-cases
      (leb l.max_requests (length (retain (is_recent l.window_secs now) (stamps l j))))) [
        | inl t ↦ rw t (refl, refl)
        | inr f ↦ rw f (refl, refl)
      ]

at_most_one : (p : ℕ → Bool) (t : ℕ) → length (retain p (t ∷ [])) ≤ 1
at_most_one p t = ground arith

-- A request of the address itself: what is let through is what is remembered.
is_allowed-Keeps :
    (w m ip now : ℕ) (acc : List ℕ) (l : RateLimiter)
    → Keeps w m ip now acc l
    → Keeps w m ip now
        (acc ++ (if (is_allowed now ip l).0 then now ∷ [] else []))
        (is_allowed now ip l).1
unfolding is_allowed
is_allowed-Keeps w m ip now acc l k =
    let recent = is_recent w now in
    let kept = retain recent (stamps l ip) in
    let self = ==-self ip in
    elim (Bool-cases
      (leb l.max_requests (length (retain (is_recent l.window_secs now) (stamps l ip))))) [
        | inl t ↦ rw t (record {
          window = k.window;
          limit = k.limit;
          agree =
              rw (append-nil acc, self, k.window)
                (k.agree ∙ sym (retain-idempotent recent (stamps l ip)));
          bound = rw (append-nil acc) k.bound;
        })
        | inr f ↦ rw f (record {
          window = k.window;
          limit = k.limit;
          agree = rw (
            self,
            k.window,
            retain-append recent acc (now ∷ []),
            retain-append recent kept (now ∷ []),
            retain-idempotent recent (stamps l ip),
            k.agree,
          );
          bound =
              let full : leb m (length kept) ≡ false = rw (k.limit, k.window) at f in
              let room : length kept + 1 ≤ m = ground arith in
              let one : length (retain recent (now ∷ [])) ≤ 1 = at_most_one recent now in
              rw
                (
                  retain-append recent acc (now ∷ []),
                  k.agree,
                  length-append kept (retain recent (now ∷ [])),
                )
                (omega (arith, room, one));
        })
      ]

after_call-Keeps :
    (w m ip now : ℕ) (c : Call) (acc : List ℕ) (l : RateLimiter)
    → Keeps w m ip now acc l
    → Keeps w m ip now (acc ++ let_through ip now c l) (after_call now c l)
unfolding after_call cleanup
after_call-Keeps w m ip now cleaned acc l k = record {
  window = k.window;
  limit = k.limit;
  agree =
      rw (append-nil acc, stamps-cleanup now ip l, k.window)
        (k.agree ∙ sym (retain-idempotent (is_recent w now) (stamps l ip)));
  bound = rw (append-nil acc) k.bound;
}
after_call-Keeps w m ip now (request j) acc l k = elim (Bool-cases (j == ip)) [
  | inl t ↦
      let same : j ≡ ip = ground arith in
      rw (same, ==-self ip) (is_allowed-Keeps w m ip now acc l k)
  | inr f ↦
      let kept = is_allowed-settings now j l in
      rw f (record {
        window = kept.0 ∙ k.window;
        limit = kept.1 ∙ k.limit;
        agree = rw (append-nil acc, stamps_other now ip j l f) k.agree;
        bound = rw (append-nil acc) k.bound;
      })
]

accepted-Keeps :
    (w m ip now last : ℕ) (cs : List (ℕ × Call)) (acc : List ℕ) (l : RateLimiter)
    → Ordered now cs last
    → Keeps w m ip now acc l
    → length (retain (is_recent w last) (acc ++ accepted ip cs l)) ≤ m
accepted-Keeps w m ip now last [] acc l h k =
    rw (append-nil acc) (Keeps-later w m ip now last acc l h k).bound
accepted-Keeps w m ip now last ((t, c) ∷ cs) acc l (h, more) k =
    rw (← append_assoc acc (let_through ip t c l) (accepted ip cs (after_call t c l))) (
      accepted-Keeps w m ip t last cs (acc ++ let_through ip t c l) (after_call t c l) more
        (after_call-Keeps w m ip t c acc l (Keeps-later w m ip now t acc l h k)))

-- Of one address, no more than the limit of requests are let through in any window: in every
-- history of requests and cleanings whose times ascend, at most `max_requests` of those that a new
-- limiter let through are younger than the window at the end.
pub accepted-le-max_requests :
    (window_secs max_requests ip last : ℕ) (cs : List (ℕ × Call))
    → Ordered 0 cs last
    → length (
        retain (is_recent window_secs last) (accepted ip cs (new_limiter window_secs max_requests)))
      ≤ max_requests
accepted-le-max_requests w m ip last cs h =
    accepted-Keeps w m ip 0 last cs [] (new_limiter w m) h
      (record { window = refl; limit = refl; agree = refl; bound = omega arith })
