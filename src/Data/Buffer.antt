-- ===== src/Data/Buffer.antt =====
-- The buffer of updates (`ChannelData.OnUpdate` of pkg/channeld/data.go).
use channeld.Base.{
  ℕ, suc, ◌+◌, ◌≤◌, ◌≡◌, refl, true, List, [], ◌∷◌, ◌++◌, length, length-append, arith,
}
use channeld.Base.Int.{ℤ, ltb_ℤ}
use channeld.World.Types.{Env, ChannelData, UpdateMsgBufferElement}
use channeld.Subscription.{add_ms}
use channeld.Data.{on_update, trim_buffer, max_update_msg_buffer_size}

-- The elements carry consecutive indices that end just below `n`.
abbrev pub Numbered : ℕ → List UpdateMsgBufferElement → Type 0
Numbered n [] = Unit {0}
Numbered n (e ∷ es) = (e.message_index + length (e ∷ es) ≡ n) × Numbered n es

Numbered-append :
    (n : ℕ) (es : List UpdateMsgBufferElement) (e : UpdateMsgBufferElement)
    → e.message_index ≡ n
    → Numbered n es
    → Numbered (suc n) (es ++ e ∷ [])
Numbered-append n [] e last numbered = omega arith
Numbered-append n (x ∷ es) e last numbered =
    (omega (arith, numbered.0, length-append es (e ∷ [])), Numbered-append n es e last numbered.1)

Numbered-trim :
    (n interval : ℕ) (t : ℤ) (es : List UpdateMsgBufferElement)
    → Numbered n es
    → Numbered n (trim_buffer interval t es)
unfolding trim_buffer
Numbered-trim n interval t [] numbered = numbered
Numbered-trim n interval t (e ∷ es) numbered = ground arith

-- An update keeps the buffered messages numbered without a gap up to the index of the newest.
on_update-Numbered :
    (env : Env) (d : ChannelData) (update_msg : ℕ) (t : ℤ) (sender : ℕ)
    → Numbered (suc d.msg_index) d.update_msg_buffer
    → let d' = on_update env d update_msg t sender in
      (d'.msg_index ≡ suc d.msg_index) × Numbered (suc d'.msg_index) d'.update_msg_buffer
unfolding on_update
on_update-Numbered env d update_msg t sender numbered = (
  refl,
  Numbered-trim (suc (suc d.msg_index)) d.max_fan_out_interval_ms t _
      (Numbered-append (suc d.msg_index) d.update_msg_buffer _ refl numbered),
)

-- When every buffered update, and the new one, is older than the longest fan-out interval.
abbrev pub AllOld : ℕ → ℤ → List UpdateMsgBufferElement → Type 0
AllOld interval t [] = Unit {0}
AllOld interval t (e ∷ es) =
    (ltb_ℤ (add_ms e.arrival_time interval) t ≡ true) × AllOld interval t es

length-trim :
    (interval : ℕ) (t : ℤ) (es : List UpdateMsgBufferElement) (e : UpdateMsgBufferElement)
    → AllOld interval t es
    → length es ≤ max_update_msg_buffer_size
    → length (trim_buffer interval t (es ++ e ∷ [])) ≤ max_update_msg_buffer_size
unfolding trim_buffer
length-trim interval t [] e old small = ground arith
length-trim interval t (x ∷ es) e old small = ground (arith, length-append es (e ∷ []), old.0)

-- The buffer keeps to its limit of 512 as long as the updates in it have been there for longer than
-- the longest fan-out interval.
on_update-bounded :
    (env : Env) (d : ChannelData) (update_msg : ℕ) (t : ℤ) (sender : ℕ)
    → AllOld d.max_fan_out_interval_ms t d.update_msg_buffer
    → length d.update_msg_buffer ≤ max_update_msg_buffer_size
    → length (on_update env d update_msg t sender).update_msg_buffer ≤ max_update_msg_buffer_size
unfolding on_update
on_update-bounded env d update_msg t sender old small =
    length-trim d.max_fan_out_interval_ms t d.update_msg_buffer _ old small
