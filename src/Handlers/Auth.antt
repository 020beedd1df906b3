-- ===== src/Handlers/Auth.antt =====
-- `handleAuth` and `onAuthComplete` (pkg/channeld/message.go). The call of the provider, which Go
-- makes in another goroutine, is one step with what follows it.
use channeld.Base.{ℕ, true, false, ◌&&◌, Option, none, some, ◌==◌, opt_eq, if◌then◌else◌, contains}
use channeld.World.Types.{
  ConnRef, ChanRef, World, Env, MessageContext, auth, auth_result, auth_complete,
}
use channeld.World.Access.{is_closing, send, send_to_owner, has_owner, broadcast_event, server}
use channeld.Connection.{close, on_authenticated}
use channeld.Ddos.{on_auth_event, successful}

-- The part of `onAuthComplete` that answers: to the connection, then to the owner of the GLOBAL
-- channel.
unfoldable pub answer_auth : Env → World → MessageContext → ℕ → ConnRef → ChanRef → World
answer_auth env w ctx result c g =
    let ctx' = record ctx {
      msg =
          auth_result result (w.conns c).id env.compression_type
            (elim (w.conns c).recover_handle [ none ↦ false | some _ ↦ true ]);
    } in
    let w' = send env w c ctx' in
    if has_owner w' g then (send_to_owner env w' g (record ctx' { stub_id = 0 })).0 else w'

abbrev pub tell_listener : Env → World → ℕ → ConnRef → ℕ → World
tell_listener env w result c pit = if env.anti_ddos then on_auth_event env w result c pit else w

unfoldable pub on_auth_complete : Env → World → MessageContext → ℕ → ℕ → ConnRef → ChanRef → World
unfolding answer_auth broadcast_event
on_auth_complete env w ctx result pit c g =
    if is_closing w c
    then w
    else let w₁ = if result == successful then on_authenticated w c pit else w in
      let w₂ = answer_auth env w₁ ctx result c g in
      tell_listener env (broadcast_event w₂ (auth_complete result c pit)) result c pit

abbrev pub after_provider : Env → World → MessageContext → ConnRef → ChanRef → ℕ → Option ℕ → World
after_provider env w ctx c g pit none = close env w c false
after_provider env w ctx c g pit (some result) = on_auth_complete env w ctx result pit c g

-- The choice of how the result of the authentication is found. A process without a provider
-- outside the development mode panics: `none`.
unfoldable pub authenticate :
    Env → World → MessageContext → ConnRef → ChanRef → ℕ → ℕ → Option World
authenticate env w ctx c g pit lt = elim env.auth_provider [
  | none ↦ if env.development then some (on_auth_complete env w ctx successful pit c g) else none
  | some do_auth ↦ some (
      if (w.conns c).connection_type == server && env.server_bypass_auth
      then on_auth_complete env w ctx successful pit c g
      else after_provider env w ctx c g pit (do_auth (w.conns c).id pit lt))
]

unfoldable pub handle_auth_msg : Env → World → MessageContext → ConnRef → ChanRef → Option World
unfolding authenticate
handle_auth_msg env w ctx c ch =
    if opt_eq w.global_channel (some ch)
    then elim ctx.msg [
      | auth pit lt ↦
          if contains pit w.pit_blacklist
          then some (close env w c false)
          else authenticate env w ctx c ch pit lt
      | _ ↦ some (close env w c false)
    ]
    else some (close env w c false)
