-- ===== src/Data/FanOut/Window.antt =====
-- Which updates a subscriber gets (`tickData` of pkg/channeld/data.go).
use channeld.Base.{
  ℕ, ◌≡◌, refl, ◌⊎◌, inl, inr, Bool, true, false, not, ◌&&◌, Option, none, some, List, [], ◌∷◌,
  if◌then◌else◌, ◌==◌, arith, lookup,
}
use channeld.Base.Int.{ℤ, leb_ℤ}
use channeld.World.Types.{
  ConnRef, ChanRef, World, Env, Options, UpdateMsgBufferElement, ChannelData, ChannelSubscription,
  FanOutConnection,
}
use channeld.Subscription.{add_ms}
use channeld.World.Access.{is_closing, send}
use channeld.Data.FanOut.{
  collect, Collected, is_own, merge_next, visit, visit_due, fan_out, next_fan_out, no_access,
  fan_out_data_update, send_merged, at_least_zero, data_update,
}

-- The updates of a window in time that are not the subscriber's own, oldest first.
abbrev pub owed : ℕ → Options → ℤ → ℤ → List UpdateMsgBufferElement → List ℕ
owed conn_id o since until [] = []
owed conn_id o since until (be ∷ rest) =
    let others = owed conn_id o since until rest in
    if not (be.sender_conn_id == conn_id && o.skip_self_update_fan_out)
      && leb_ℤ since be.arrival_time
      && leb_ℤ be.arrival_time until
    then be.update_msg ∷ others
    else others

abbrev pub merge_all : Env → Option ℕ → Option ℕ → List ℕ → Option ℕ
merge_all env options m [] = m
merge_all env options m (u ∷ us) = merge_all env options (some (merge_next env options m u)) us

-- The updates of the buffer arrived in this order, none before the time given.
abbrev pub InOrder : ℤ → List UpdateMsgBufferElement → Type 0
InOrder t [] = Unit {0}
InOrder t (be ∷ rest) = (leb_ℤ t be.arrival_time ≡ true) × InOrder be.arrival_time rest

-- The cursor is the start of the window or the arrival of an update that was merged.
abbrev Cursor : ℤ → ℤ → ℤ → Type 0
Cursor since t u = (u ≡ since) ⊎ ((leb_ℤ since u ≡ true) × (leb_ℤ u t ≡ true))

Cursor-same : (since t u a : ℤ) → Cursor since t u → leb_ℤ t a ≡ true → leb_ℤ u a ≡ leb_ℤ since a
Cursor-same since t u a (inl e) h = rw (e) refl
Cursor-same since t u a (inr (low, high)) h = ground arith

Cursor-later : (since t u a : ℤ) → Cursor since t u → leb_ℤ t a ≡ true → Cursor since a u
Cursor-later since t u a (inl e) h = inl e
Cursor-later since t u a (inr (low, high)) h = inr (low, ground arith)

abbrev taken_in : Env → Option ℕ → UpdateMsgBufferElement → Collected → Collected
taken_in env options be s = record {
  merged = some (merge_next env options s.merged be.update_msg);
  last_update_time = be.arrival_time;
  last_message_index = be.message_index;
}

-- One element, given the rest of the loop with and without it.
collect-step :
    (env : Env) (options : Option ℕ) (conn_id : ℕ) (o : Options) (since t until : ℤ)
    (be : UpdateMsgBufferElement) (rest : List UpdateMsgBufferElement) (s : Collected)
    → leb_ℤ t be.arrival_time ≡ true
    → Cursor since t s.last_update_time
    → (collect env options conn_id o until rest s).merged
      ≡ merge_all env options s.merged (owed conn_id o since until rest)
    → (leb_ℤ since be.arrival_time ≡ true
        → (collect env options conn_id o until rest (taken_in env options be s)).merged
          ≡ merge_all env options
              (taken_in env options be s).merged
              (owed conn_id o since until rest))
    → (collect env options conn_id o until (be ∷ rest) s).merged
      ≡ merge_all env options s.merged (owed conn_id o since until (be ∷ rest))
unfolding collect
collect-step env options conn_id o since t until be rest s after cursor kept taken =
    split (is_own conn_id o be) (leb_ℤ since be.arrival_time) (leb_ℤ be.arrival_time until) refl
      refl refl
  where
    same : leb_ℤ s.last_update_time be.arrival_time ≡ leb_ℤ since be.arrival_time
    same = Cursor-same since t s.last_update_time be.arrival_time cursor after

    split :
        (own low high : Bool)
        → is_own conn_id o be ≡ own
        → leb_ℤ since be.arrival_time ≡ low
        → leb_ℤ be.arrival_time until ≡ high
        → (collect env options conn_id o until (be ∷ rest) s).merged
          ≡ merge_all env options s.merged (owed conn_id o since until (be ∷ rest))
    split true low high e l h = ground (arith, kept, e)
    split false false high e l h = ground (arith, kept, e, l, same)
    split false true false e l h = ground (arith, kept, e, l, h, same)
    split false true true e l h = ground (arith, taken l, e, l, h, same)

collect-from :
    (env : Env) (options : Option ℕ) (conn_id : ℕ) (o : Options) (since t until : ℤ)
    (buffer : List UpdateMsgBufferElement) (s : Collected)
    → InOrder t buffer
    → Cursor since t s.last_update_time
    → (collect env options conn_id o until buffer s).merged
      ≡ merge_all env options s.merged (owed conn_id o since until buffer)
unfolding collect
collect-from env options conn_id o since t until [] s ordered cursor = refl
collect-from env options conn_id o since t until (be ∷ rest) s ordered cursor =
    collect-step env options conn_id o since t until be rest s ordered.0 cursor
      (collect-from env options conn_id o since be.arrival_time until rest s ordered.1
        (Cursor-later since t s.last_update_time be.arrival_time cursor ordered.0))
      (λ low.
        collect-from env options conn_id o since be.arrival_time until rest
          (taken_in env options be s) ordered.1 (inr (low, ground arith)))

-- What the loop over the buffer merges.
collect-owed :
    (env : Env) (options : Option ℕ) (conn_id : ℕ) (o : Options) (since start until : ℤ) (index : ℕ)
    (buffer : List UpdateMsgBufferElement)
    → InOrder start buffer
    → (collect env options conn_id o until buffer
        (record { merged = none; last_update_time = since; last_message_index = index })).merged
      ≡ merge_all env options none (owed conn_id o since until buffer)
collect-owed env options conn_id o since start until index buffer ordered =
    collect-from env options conn_id o since start until buffer
      (record { merged = none; last_update_time = since; last_message_index = index }) ordered
      (inl refl)

-- The process after a subscriber was sent the merge of these updates, less the fields that it did not
-- ask for. Without updates, and where the message cannot be wrapped, nothing is sent.
abbrev pub sent_merge : Env → World → ChanRef → ConnRef → List ℕ → Option ℕ → World
sent_merge env w ch c masks none = w
sent_merge env w ch c masks (some m) = elim (env.wrap_any (env.filter_fields masks m)) [
  | none ↦ w
  | some content ↦ send env w c (data_update w ch content)
]

-- When the loop comes to an open subscriber with access that is due and has had its first fan-out,
-- and the buffered updates arrived in order, the process changes only by one message to it: the
-- merge, in that order, of the updates that arrived from its last fan-out time (or 0, if that is
-- negative) to its next one, both included, less its own where it asked for that, and less the
-- fields that it did not ask for. Nothing is sent where there is no such update or the message
-- cannot be wrapped.
pub visit-owed :
    (env : Env) (ch : ChanRef) (t start : ℤ) (w : World) (passed rest : List FanOutConnection)
    (foc : FanOutConnection) (cs : ChannelSubscription) (d : ChannelData) (msg : ℕ)
    → InOrder start d.update_msg_buffer
    → is_closing w foc.conn ≡ false
    → lookup foc.conn (w.chans ch).subscribed_connections ≡ some cs
    → (cs.options.data_access == no_access) ≡ false
    → leb_ℤ (add_ms foc.last_fan_out_time cs.options.fan_out_interval_ms) t ≡ true
    → foc.had_first_fan_out ≡ true
    → (w.chans ch).channel_data ≡ some d
    → d.msg ≡ some msg
    → (visit env ch t w passed foc rest).0
      ≡ sent_merge env w ch foc.conn cs.options.data_field_masks (
          merge_all env d.merge_options none (
            owed
              (w.conns foc.conn).id
              cs.options
              (at_least_zero foc.last_fan_out_time)
              (add_ms foc.last_fan_out_time cs.options.fan_out_interval_ms)
              d.update_msg_buffer))
unfolding visit visit_due fan_out next_fan_out fan_out_data_update
visit-owed env ch t start w passed rest foc cs d msg ordered live found access due had has_d
      has_msg =
    rw
      (visit, live, found, access, visit_due, due, fan_out, has_d, has_msg, had, next_fan_out, owes)
      (split (
        merge_all env d.merge_options none (
          owed (w.conns foc.conn).id cs.options (at_least_zero foc.last_fan_out_time)
            (add_ms foc.last_fan_out_time cs.options.fan_out_interval_ms) d.update_msg_buffer)))
  where
    owes :
        (collect env d.merge_options
          (w.conns foc.conn).id
          cs.options
          (add_ms foc.last_fan_out_time cs.options.fan_out_interval_ms)
          d.update_msg_buffer
          (record {
            merged = none;
            last_update_time = at_least_zero foc.last_fan_out_time;
            last_message_index = foc.last_message_index;
          })).merged
        ≡ merge_all env d.merge_options none (
            owed
              (w.conns foc.conn).id
              cs.options
              (at_least_zero foc.last_fan_out_time)
              (add_ms foc.last_fan_out_time cs.options.fan_out_interval_ms)
              d.update_msg_buffer)
    owes =
        collect-owed env d.merge_options (w.conns foc.conn).id cs.options
          (at_least_zero foc.last_fan_out_time) start
          (add_ms foc.last_fan_out_time cs.options.fan_out_interval_ms) foc.last_message_index
          d.update_msg_buffer ordered

    split :
        (o : Option ℕ)
        → send_merged env w ch foc.conn cs.options o
          ≡ sent_merge env w ch foc.conn cs.options.data_field_masks o
    split none = refl
    split (some m) = refl
