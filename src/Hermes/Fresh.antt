-- ===== src/Hermes/Fresh.antt =====
-- hermes/model/model-opaques.go and hermes/mailbox.go: comparisons with a name that was just allocated.
use godev.Prelude.{
  true, ℕ, Bool, false, List, [], ◌∷◌, map, Option, none, some, Bytes, ◌≡◌, ◌≢◌, refl, ==_iff,
  if◌then◌else◌,
}
use godev.Hermes.Name.{Name, new_name, Allocated, same-fresh}
use godev.Hermes.Message.{
  RpcHeader, FrameType, unspecified, request, error_response, success_response,
}
use godev.Hermes.Mailbox.{
  Mailbox, holds, load_correlation, register_correlation, Handled, delivers, handle_frame,
  handle_inbox, handle_response, requests, no_handler,
}

pub holds-fresh : (n : Name) (cs : List Name) → Allocated n.address cs → holds n cs ≡ false
unfolding holds
holds-fresh n [] a = refl
holds-fresh n (c ∷ cs) (h, a) = rw (same-fresh n c h) (holds-fresh n cs a)

pub load_correlation-fresh :
    (n : Name) (cs : List (Name × ℕ))
    → Allocated n.address (map (λ (c : Name × ℕ). c.0) cs)
    → load_correlation n cs ≡ none
unfolding load_correlation
load_correlation-fresh n [] a = refl
load_correlation-fresh n ((k, ch) ∷ cs) (h, a) =
    rw (same-fresh n k h) (load_correlation-fresh n cs a)

-- The pointer that was registered finds its channel.
pub load-register :
    (n : Name) (ch : ℕ) (cs : List (Name × ℕ))
    → load_correlation n (register_correlation n ch cs) ≡ some ch
unfolding load_correlation register_correlation
load-register n ch cs = rw ((==_iff n.address n.address).1 refl) refl

abbrev pub Drops : Handled → Type 0
Drops h = (ch : ℕ) → h ≢ delivers ch

response-Drops :
    (text : Bytes) (free : ℕ) (cs : List (Name × ℕ))
    → Allocated free (map (λ (c : Name × ℕ). c.0) cs)
    → Drops (handle_response text free cs).0
unfolding handle_response new_name
response-Drops [] free cs a ch = cc
response-Drops (c ∷ text) free cs a ch =
    rw (load_correlation-fresh (record { address = free; text = c ∷ text }) cs a) cc

request-Drops : (b : Bool) → Drops (if b then requests else no_handler)
request-Drops true ch = cc
request-Drops false ch = cc

-- Whatever calls wait for a response, a message of the inbox reaches none of them: the identifier that
-- is looked up was allocated after all those that are registered.
pub handle_inbox-Drops :
    (h : Option RpcHeader) (has_handler : Bool) (free : ℕ) (m : Mailbox)
    → Allocated free (map (λ (c : Name × ℕ). c.0) m.correlations)
    → Drops (handle_inbox h has_handler free m).0
unfolding handle_inbox
handle_inbox-Drops none b free m a ch = cc
handle_inbox-Drops (some h) b free m a ch = go h.frame_type
  where
    go : (f : FrameType) → (handle_frame f h.correlation_id b free m).0 ≢ delivers ch
    go unspecified = cc
    go request = request-Drops b ch
    go error_response = response-Drops h.correlation_id free m.correlations a ch
    go success_response = response-Drops h.correlation_id free m.correlations a ch
