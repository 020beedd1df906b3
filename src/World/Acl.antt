-- ===== src/World/Acl.antt =====
-- Access control on channels (pkg/channeld/channel_acl.go).
use channeld.Base.{ℕ, Bool, true, false, ◌||◌, Option, none, some, ◌==◌, if◌then◌else◌, lookup}
use channeld.World.Types.{
  ConnRef, ChanRef, World, Env, AclSettings, Sender, no_sender, nil_sender, sender,
}
use channeld.World.Access.{get_owner}

pub data AccessType : Type 0 where
  sub unsub remove : AccessType

pub data AclError : Type 0 where
  none_access owner_only_access owner_and_global_owner_access illegal_access_level : AclError

pub data AclResult : Type 0 where
  granted : AclResult
  denied : AclError → AclResult

abbrev pub is_granted : AclResult → Bool
is_granted granted = true
is_granted (denied e) = false

-- `ChannelAccessLevel`.
abbrev pub none_level : ℕ
none_level = 0

abbrev pub owner_only : ℕ
owner_only = 1

abbrev pub owner_and_global_owner : ℕ
owner_and_global_owner = 2

abbrev pub any_level : ℕ
any_level = 3

abbrev pub level_of : AccessType → AclSettings → ℕ
level_of sub acl = acl.sub
level_of unsub acl = acl.unsub
level_of remove acl = acl.remove

-- `owner == c` on interface values. An owner is absent (a nil interface) or a connection; a nil
-- `*Connection` in an interface equals neither.
abbrev pub owner_is : Option ConnRef → Sender → Bool
owner_is none no_sender = true
owner_is none nil_sender = false
owner_is none (sender c) = false
owner_is (some o) no_sender = false
owner_is (some o) nil_sender = false
owner_is (some o) (sender c) = o == c

-- The owner of the GLOBAL channel, which exists whenever a handler runs.
unfoldable pub global_owner : World → Option ConnRef
global_owner w = elim w.global_channel [ none ↦ none | some g ↦ get_owner w g ]

abbrev pub check_level : ℕ → Option ConnRef → Option ConnRef → Sender → AclResult
check_level level owner global c =
    if level == none_level
    then denied none_access
    else if level == owner_only
    then if owner_is owner c then granted else denied owner_only_access
    else if level == owner_and_global_owner
    then if owner_is owner c || owner_is global c
      then granted
      else denied owner_and_global_owner_access
    else if level == any_level
    then granted
    else denied illegal_access_level

-- `Channel.CheckACL`: a channel type without settings gives access to nobody.
unfoldable pub check_acl : Env → World → ChanRef → Sender → AccessType → AclResult
unfolding global_owner lookup
check_acl env w ch c access =
    check_level
      (elim (lookup (w.chans ch).channel_type env.channel_settings) [
        | none ↦ none_level
        | some s ↦ level_of access s.acl_settings
      ])
      (get_owner w ch) (global_owner w) c
