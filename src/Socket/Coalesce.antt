-- ===== src/Socket/Coalesce.antt =====
-- The batch of the mobile page: `scheduleStateApply` (frontend/src/hooks/useRaftWS.js).
use raft_visualizer.Prelude.{
  ℕ, suc, ◌≡◌, refl, ap, ◌∙◌, true, false, Option, none, some, List, [], ◌∷◌, ◌++◌, map, arith,
  nat_eq, String,
}
use raft_visualizer.Cluster.{Payload}
use raft_visualizer.Store.Update.{apply_state_update}
use raft_visualizer.Store.Update.Shown.{shown, reported, shown-apply_state_update}
use raft_visualizer.Socket.{Hook, state_update, flush, on_message, schedule_state_apply, ignores}
use raft_visualizer.Socket.Events.{Event, message, flush_due, media_change, handle, run}

-- State messages of one socket, one after another.
abbrev pub burst : ℕ → String → List (Option Payload) → List Event
burst k time = map (λ p. message k time time (state_update p))

abbrev pub latest : Option Payload → List (Option Payload) → Option Payload
latest p [] = p
latest p (q ∷ qs) = latest q qs

-- The hook while it holds a payload back.
abbrev holding : Hook → Option Payload → Hook
holding h p = record h {
  pending_payload = p;
  flush_timer = some h.next_timer;
  flush_timers = h.next_timer ∷ h.flush_timers;
  next_timer = suc h.next_timer;
}

module _ (h : Hook) (k : ℕ) (heard : ignores h k ≡ false) (mobile : h.is_mobile ≡ true) where
  run-burst-holding :
      (time : String) (p : Option Payload) (ps : List (Option Payload)) (es : List Event)
      → run (burst k time ps ++ es) (holding h p) ≡ run es (holding h (latest p ps))
  unfolding run handle on_message schedule_state_apply
  run-burst-holding time p [] es = refl
  run-burst-holding time p (q ∷ qs) es =
      ap (run (burst k time qs ++ es)) one ∙ run-burst-holding time q qs es
    where
      one : handle (message k time time (state_update q)) (holding h p) ≡ holding h q
      one = ground arith

  -- On the mobile page a burst of state messages changes the store once, when the flush timer that
  -- the first of them started fires: by the latest payload, over the store before the burst.
  pub flush-burst :
      (time t1 t2 : String) (p : Option Payload) (ps : List (Option Payload)) (q : Payload)
      → h.flush_timer ≡ none
      → latest p ps ≡ some q
      → (run (burst k time (p ∷ ps) ++ flush_due h.next_timer t1 t2 ∷ []) h).store
        ≡ apply_state_update t1 t2 (some q) h.store
  unfolding run
  flush-burst time t1 t2 p ps q idle last =
      ap (λ g. (run (burst k time ps ++ flush_due h.next_timer t1 t2 ∷ []) g).store) first
      ∙ ap (λ (g : Hook). g.store) (run-burst-holding time p ps (flush_due h.next_timer t1 t2 ∷ []))
      ∙ flushed
    where
      first : handle (message k time time (state_update p)) h ≡ holding h p
      first = unfold handle on_message schedule_state_apply in ground arith

      flushed :
          (run (flush_due h.next_timer t1 t2 ∷ []) (holding h (latest p ps))).store
          ≡ apply_state_update t1 t2 (some q) h.store
      flushed = unfold handle flush in ground arith

  -- A payload that is held back when the page stops being mobile is applied later than the payloads
  -- that arrive meanwhile: after the flush the page shows the older one.
  pub flush_stale :
      (t1 t2 t3 t4 : String) (old new : Payload) (j : ℕ)
      → h.pending_payload ≡ some old
      → h.flush_timer ≡ some j
      → h.flush_timers ≡ j ∷ []
      → shown
          (run
            (media_change false
              ∷ message k t1 t2 (state_update (some new))
              ∷ flush_due j t3 t4
              ∷ [])
            h).store.nodes
        ≡ reported (some old)
  unfolding run
  flush_stale t1 t2 t3 t4 old new j held timer timers =
      ap (λ g. shown (run rest g).store.nodes) widened
      ∙ ap (λ g. shown (handle (flush_due j t3 t4) g).store.nodes) applied
      ∙ ap (λ s. shown s.nodes) flushed
      ∙ shown-apply_state_update t3 t4 (some old) (apply_state_update t1 t2 (some new) h.store)
    where
      rest : List Event
      rest = message k t1 t2 (state_update (some new)) ∷ flush_due j t3 t4 ∷ []

      wide : Hook
      wide = record h { is_mobile = false }

      widened : handle (media_change false) h ≡ wide
      widened = unfold handle in ground arith

      applied :
          handle (message k t1 t2 (state_update (some new))) wide
          ≡ record wide { store = apply_state_update t1 t2 (some new) h.store }
      applied = unfold handle on_message schedule_state_apply in ground arith

      flushed :
          (handle
            (flush_due j t3 t4)
            (record wide { store = apply_state_update t1 t2 (some new) h.store })).store
          ≡ apply_state_update t3 t4 (some old) (apply_state_update t1 t2 (some new) h.store)
      flushed = unfold handle flush in ground arith
