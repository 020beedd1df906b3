-- ===== src/Ddos/Timeouts.antt =====
-- The time limit for the authentication, and what follows for the address of a connection
-- (pkg/channeld/ddos.go).
use channeld.Base.{
  ap, ◌∙◌, subst, ℕ, ◌≡◌, refl, Bool, true, false, ◌||◌, none, some, List, [], ◌∷◌, arith, contains,
  ==_self, ==_iff, Bool-cases, ◌⊎◌, inl, inr, update, ◌==◌,
}
use channeld.World.Types.{ConnRef, World, Env}
use channeld.World.Access.{is_closing, set_conn}
use channeld.Connection.{close}
use channeld.Connection.Closed.{close-is_closing}
use channeld.Ddos.{is_overdue, check_unauth_conn, check_each, check_unauth_conns, ban_ip}
use channeld.Accept.{accept}

-- Closing as an expected event: the other connections stay as they are.
close-others :
    (env : Env) (w : World) (c d : ConnRef)
    → let w' = close env w c false in
      ((w'.conns d).remote_ip ≡ (w.conns d).remote_ip)
      × ((w'.conns d).conn_time ≡ (w.conns d).conn_time)
      × (w'.now ≡ w.now)
      × (w'.ip_blacklist ≡ w.ip_blacklist)
      × (((c == d) ≡ false) → ((w'.conns d).state ≡ (w.conns d).state))
      × ((is_closing w d ≡ true) → (is_closing w' d ≡ true))
unfolding close set_conn update is_closing
close-others env w c d = ground arith

-- Every connection has an address, as `AddConnection` gives it.
abbrev pub Addressed : World → Type 0
Addressed w = (d : ConnRef) → (ip : ℕ) × ((w.conns d).remote_ip ≡ some ip)

-- A connection is closing and its address banned, or it is still overdue.
abbrev Settled : World → ConnRef → ℕ → Type 0
Settled w d ip = (is_closing w d ≡ true) × (contains ip w.ip_blacklist ≡ true)

ban_ip-Settled : (env : Env) (w : World) (c : ConnRef) (ip : ℕ) → Settled (ban_ip env w c ip) c ip
unfolding ban_ip
ban_ip-Settled env w c ip =
    let w₁ = record w { ip_blacklist = ip ∷ w.ip_blacklist } in
    ground (arith, close-is_closing env w₁ c false, close-others env w₁ c c, ==_self ip)

ban_ip-keeps :
    (env : Env) (w : World) (c d : ConnRef) (ip ip' : ℕ)
    → ((Settled w d ip') → Settled (ban_ip env w c ip) d ip')
      × (((c == d) ≡ false)
          → is_overdue env w d ≡ true
          → is_overdue env (ban_ip env w c ip) d ≡ true)
      × (((ban_ip env w c ip).conns d).remote_ip ≡ (w.conns d).remote_ip)
unfolding ban_ip is_overdue is_closing
ban_ip-keeps env w c d ip ip' =
    let w₁ = record w { ip_blacklist = ip ∷ w.ip_blacklist } in
    let others = close-others env w₁ c d in
    (
      λ (closed, banned). (others.5 closed, ground (arith, others.3, banned)),
      λ other late. ground (arith, others.4 other, others.1, others.2, late),
      others.0,
    )

-- Whether a connection is in a registry.
abbrev pub has_ref : ConnRef → List (ℕ × ConnRef) → Bool
has_ref d [] = false
has_ref d ((id, c) ∷ rest) = c == d || has_ref d rest

-- What one step does to a connection `d` whose address is `ip`.
pub record Step (env : Env) (d : ConnRef) (ip : ℕ) (c : ConnRef) (w w' : World) : Type 0 where
  pub addressed : Addressed w'
  pub settled : Settled w d ip → Settled w' d ip
  pub pending : is_overdue env w d ≡ true → (is_overdue env w' d ≡ true) ⊎ Settled w' d ip
  pub own : (c == d) ≡ true → is_overdue env w d ≡ true → Settled w' d ip
  pub address : (w'.conns d).remote_ip ≡ some ip

module _ (env : Env) (d : ConnRef) (ip : ℕ) where
  -- A ban of the connection itself settles it.
  ban_ip-own :
      (w : World) (c : ConnRef) (ip' : ℕ)
      → (w.conns c).remote_ip ≡ some ip'
      → (w.conns d).remote_ip ≡ some ip
      → (c == d) ≡ true
      → Settled (ban_ip env w c ip') d ip
  ban_ip-own w c ip' there here same =
      let c≡d : c ≡ d = (==_iff c d).0 same in
      let ip'≡ip : ip' ≡ ip =
        ground (arith, there, here, ap (λ (e : ConnRef). (w.conns e).remote_ip) c≡d) in
      subst (λ (e : ConnRef). Settled (ban_ip env w c ip') e ip) c≡d
        (subst (Settled (ban_ip env w c ip') c) ip'≡ip (ban_ip-Settled env w c ip'))

  ban_ip-Step :
      (w : World) (c : ConnRef) (ip' : ℕ)
      → Addressed w
      → (w.conns c).remote_ip ≡ some ip'
      → (w.conns d).remote_ip ≡ some ip
      → Step env d ip c w (ban_ip env w c ip')
  ban_ip-Step w c ip' addressed there here = record {
    addressed = λ e. let (i, at) = addressed e in (i, (ban_ip-keeps env w c e ip' i).2 ∙ at);
    settled = (ban_ip-keeps env w c d ip' ip).0;
    pending = λ late. elim (Bool-cases (c == d)) [
      | inl same ↦ inr (ban_ip-own w c ip' there here same)
      | inr other ↦ inl ((ban_ip-keeps env w c d ip' ip).1 other late)
    ];
    own = λ same late. ban_ip-own w c ip' there here same;
    address = (ban_ip-keeps env w c d ip' ip).2 ∙ here;
  }

  check_unauth_conn-Step :
      (w : World) (c : ConnRef)
      → Addressed w
      → (w.conns d).remote_ip ≡ some ip
      → (w' : World) × (check_unauth_conn env w c ≡ some w') × Step env d ip c w w'
  unfolding check_unauth_conn
  check_unauth_conn-Step w c addressed here = elim (Bool-cases (is_overdue env w c)) [
    | inl late ↦
        let (ip', there) = addressed c in
        (ban_ip env w c ip', ground (arith, late, there), ban_ip-Step w c ip' addressed there here)
    | inr calm ↦ (
      w,
      ground (arith, calm),
      record {
        addressed = addressed;
        settled = λ s. s;
        pending = λ late. inl late;
        own = λ same late. ground (arith, calm, late, ap (is_overdue env w) ((==_iff c d).0 same));
        address = here;
      },
    )
  ]

  -- The loop settles every overdue connection that it meets.
  check_each-Settled :
      (conns : List (ℕ × ConnRef)) (w : World)
      → Addressed w
      → (w.conns d).remote_ip ≡ some ip
      → (w' : World) × (check_each env w conns ≡ some w')
        × (Settled w d ip → Settled w' d ip)
        × (is_overdue env w d ≡ true → has_ref d conns ≡ true → Settled w' d ip)
  unfolding check_each
  check_each-Settled [] w addressed here = (w, refl, λ s. s, λ late met. ground (arith, met))
  check_each-Settled ((id, c) ∷ rest) w addressed here =
      let (w₁, eq₁, step) = check_unauth_conn-Step w c addressed here in
      let (w', eq', keeps, settles) = check_each-Settled rest w₁ step.addressed step.address in
      (
        w',
        ground (arith, eq₁, eq'),
        λ s. keeps (step.settled s),
        λ late met. elim (Bool-cases (c == d)) [
          | inl same ↦ keeps (step.own same late)
          | inr other ↦ elim (step.pending late) [
            | inl late' ↦ settles late' (ground (arith, met, other))
            | inr s ↦ keeps s
          ]
        ],
      )

-- Where every connection has an address, one round of `checkUnauthConns` ends, and a registered
-- connection that has waited for its authentication for too long is closing afterwards and its
-- address is refused by the next `Accept`.
pub check_unauth_conns-refuses :
    (env : Env) (w : World) (d : ConnRef) (ip : ℕ)
    → Addressed w
    → (w.conns d).remote_ip ≡ some ip
    → is_overdue env w d ≡ true
    → has_ref d w.unauthenticated_connections ≡ true
    → (w' : World) × (check_unauth_conns env w ≡ some w')
      × (is_closing w' d ≡ true)
      × ((hash : ℕ) (clock : ℕ → ℕ) (t : ℕ) → accept env w' hash clock ip t ≡ some (w', none))
unfolding check_unauth_conns accept
check_unauth_conns-refuses env w d ip addressed here late met =
    let (w', eq, keeps, settles) =
      check_each-Settled env d ip w.unauthenticated_connections w addressed here in
    let (closed, banned) = settles late met in
    (w', eq, closed, λ hash clock t. ground (arith, banned))
