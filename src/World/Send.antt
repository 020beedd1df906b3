-- ===== src/World/Send.antt =====
-- What `Connection.Send` changes (pkg/channeld/connection.go): one queue, at its end.
use channeld.Base.{
  ◌-◌, ◌≡◌, Bool, true, false, not, ◌&&◌, none, some, List, [], ◌∷◌, ◌++◌, leb, ◌==◌, if◌then◌else◌,
  arith, update,
}
use channeld.World.Types.{ConnRef, World, Env, MessageContext}
use channeld.World.Access.{send, is_closing, max_packet_size, packet_header_size}

-- A pack that can be marshalled and leaves room for the packet around it.
abbrev pub fits : Env → MessageContext → Bool
fits env ctx = elim (env.pack_size ctx) [
  | none ↦ false
  | some size ↦ not (leb (max_packet_size - packet_header_size) size)
]

abbrev pub receives : Env → World → ConnRef → MessageContext → Bool
receives env w c ctx = not (is_closing w c) && fits env ctx

abbrev pub queued :
    Env → World → ConnRef → MessageContext → List MessageContext → List MessageContext
queued env w c ctx q = if receives env w c ctx then q ++ ctx ∷ [] else q

module _ (env : Env) (w : World) (c : ConnRef) (ctx : MessageContext) where
  pub send-chans : (send env w c ctx).chans ≡ w.chans
  unfolding send
  send-chans = ground arith

  pub send-global_channel : (send env w c ctx).global_channel ≡ w.global_channel
  unfolding send
  send-global_channel = ground arith

  pub send-send_queue :
      (d : ConnRef)
      → ((send env w c ctx).conns d).send_queue
        ≡ (if c == d then queued env w c ctx (w.conns d).send_queue else (w.conns d).send_queue)
  unfolding send update
  send-send_queue d = ground arith

  -- All but the queue of a connection is as it was.
  pub send-conn :
      (d : ConnRef)
      → (send env w c ctx).conns d
        ≡ record (w.conns d) { send_queue = ((send env w c ctx).conns d).send_queue }
  unfolding send update
  send-conn d = ground arith

  pub send-connection_type :
      (d : ConnRef) → ((send env w c ctx).conns d).connection_type ≡ (w.conns d).connection_type
  unfolding send update
  send-connection_type d = ground arith

  pub send-is_closing : (d : ConnRef) → is_closing (send env w c ctx) d ≡ is_closing w d
  unfolding send update is_closing
  send-is_closing d = ground arith

  pub send-closing : is_closing w c ≡ true → send env w c ctx ≡ w
  unfolding send
  send-closing closed = ground arith
