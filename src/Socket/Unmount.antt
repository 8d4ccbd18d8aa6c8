-- ===== src/Socket/Unmount.antt =====
-- What is left of the hook once the page has unmounted it.
use raft_visualizer.Prelude.{◌≡◌, refl, ◌∙◌, true, none, List, [], ◌∷◌, arith, nat_eq}
use raft_visualizer.Socket.{Hook, on_error, unmount, send_fault, send_client_command}
use raft_visualizer.Socket.Events.{
  Event, opened, closed, errored, message, reconnect_due, flush_due, media_change, unmounted,
  mounted, fault, command, handle, outgoing, sent, run,
}
use raft_visualizer.Prelude.{All}
use raft_visualizer.Socket.Phase.{Phase, gone, linked, waiting}
use raft_visualizer.Socket.Batch.{message_ignored}
use raft_visualizer.Socket.Life.{IsValid, handle-IsValid}

-- Every event of the browser and the backend, and every call of the functions that were injected.
abbrev pub IsLeftover : Event → Type 0
IsLeftover (mounted matches) = ⊥
IsLeftover unmounted = ⊥
IsLeftover _ = Unit

gone_facts :
    (h : Hook)
    → Phase h
    → h.disposed ≡ true
    → (h.ws ≡ none) × (h.unclosed ≡ []) × (h.timers ≡ []) × (h.flush_timer ≡ none)
gone_facts h (gone d w u t f p) e = (w, u, t, f)
gone_facts h (linked k d w u t s) e = cc
gone_facts h (waiting k d w t u s) e = cc

handle_gone :
    (e : Event) (h : Hook)
    → IsLeftover e
    → h.disposed ≡ true
    → IsValid h
    → ((handle e h).store ≡ h.store) × ((handle e h).disposed ≡ true) × (outgoing e h ≡ [])
unfolding handle outgoing on_error send_fault send_client_command
handle_gone (opened k) h n d v =
    let known = gone_facts h v.phase d in (ground arith, ground arith, refl)
handle_gone (closed k) h n d v =
    let known = gone_facts h v.phase d in (ground arith, ground arith, refl)
handle_gone (errored k) h n d v = (ground arith, ground arith, refl)
handle_gone (message k t1 t2 frame) h n d v =
    let e = message_ignored k t1 t2 frame h d in (ground arith, ground arith, refl)
handle_gone (reconnect_due k) h n d v =
    let known = gone_facts h v.phase d in (ground arith, ground arith, refl)
handle_gone (flush_due k t1 t2) h n d v =
    let known = gone_facts h v.phase d in
    (ground (arith, v.flushes), ground (arith, v.flushes), refl)
handle_gone (media_change matches) h n d v = (ground arith, ground arith, refl)
handle_gone unmounted h n d v = elim n [ ]
handle_gone (mounted matches) h n d v = elim n [ ]
handle_gone (fault f) h n d v = let known = gone_facts h v.phase d in (refl, d, ground arith)
handle_gone (command c) h n d v = let known = gone_facts h v.phase d in (refl, d, ground arith)

run_gone :
    (es : List Event) (h : Hook)
    → All IsLeftover es
    → h.disposed ≡ true
    → IsValid h
    → ((run es h).store ≡ h.store) × (sent es h ≡ [])
unfolding run sent
run_gone [] h n d v = (refl, refl)
run_gone (e ∷ es) h n d v =
    let (store, disposed, quiet) = handle_gone e h n.0 d v in
    let (store', quiet') = run_gone es (handle e h) n.1 disposed (handle-IsValid e v) in
    (store' ∙ store, rw (quiet, quiet') refl)

unmount_disposed : (h : Hook) → (handle unmounted h).disposed ≡ true
unfolding handle unmount
unmount_disposed h = ground arith

-- After the page has unmounted the hook, no late event of a socket, a timer or the media query
-- changes the store, and no late call of an injected function sends anything.
pub run-unmounted :
    (h : Hook) (es : List Event)
    → IsValid h
    → All IsLeftover es
    → ((run es (handle unmounted h)).store ≡ (handle unmounted h).store)
      × (sent es (handle unmounted h) ≡ [])
run-unmounted h es v n =
    run_gone es (handle unmounted h) n (unmount_disposed h) (handle-IsValid unmounted v)
