-- ===== src/Chat.antt =====
-- `PrivateChatChannel` of src/chat.cpp: who is invited to a private channel and who uses it. A player is
-- the number `getID()`, and `guid` gives `getGUID()`. The scripts of joining and leaving, and messages,
-- are not modelled; no public channel has the number of a private one.
pub mod Guests
mod Tests
use otxserver.Common.{
  ℕ, zero, suc, ◌+◌, ◌-◌, ◌*◌, ◌/◌, ◌%◌, ◌^◌, ◌≤◌, ◌<◌, min, max, ◌≡◌, refl, sym, ap, ◌∙◌, ◌≢◌, ◌↔◌,
  ◌⊎◌, inl, inr, Bool, true, false, not, ◌&&◌, ◌||◌, Option, none, some, List, [], ◌∷◌, ◌++◌, map,
  arith, ltb, leb, ◌==◌, if◌then◌else◌, ltb→lt, lt→ltb, leb→le, ==_iff, ==_refl, Bool-cases,
  Option-cases, dist, if_intro, length, get_elem?, get_or, set, take, drop, length-append,
  take-append, drop-append, All, All-append,
}
use otxserver.Common.Sets.{mem, erase}

-- `m_owner`, `m_invites`, and the keys of `m_users`.
pub record PrivateChannel : Type 0 where
  pub owner : ℕ
  pub invites : List ℕ
  pub users : ℕ → Bool

-- `isInvited`
unfoldable pub is_invited : ℕ → PrivateChannel → Bool
is_invited guid c = guid == c.owner || mem guid c.invites

-- `addInvited`: its answer, and the channel after it.
unfoldable pub add_invited : ℕ → PrivateChannel → Bool × PrivateChannel
add_invited guid c =
    if mem guid c.invites
    then (false, c)
    else (true, record c { invites = c.invites ++ (guid ∷ []) })

-- `removeInvited`
unfoldable pub remove_invited : ℕ → PrivateChannel → Bool × PrivateChannel
remove_invited guid c =
    if mem guid c.invites then (true, record c { invites = erase guid c.invites }) else (false, c)

-- `ChatChannel::removeUser`
unfoldable pub remove_user : ℕ → PrivateChannel → PrivateChannel
remove_user player c = record c { users = λ i. if i == player then false else c.users i }

-- `ChatChannel::addUser`, with the part of `Chat::getChannel` on a private channel.
unfoldable pub add_user : (ℕ → ℕ) → Bool → ℕ → PrivateChannel → Bool × PrivateChannel
add_user guid removed player c =
    if c.users player
    then (true, c)
    else (if removed || not (is_invited (guid player) c)
        then (false, c)
        else (true, record c { users = λ i. if i == player then true else c.users i }))

-- `invitePlayer`
unfoldable pub invite_player : (ℕ → ℕ) → ℕ → ℕ → PrivateChannel → PrivateChannel
invite_player guid player other c = if player == other then c else (add_invited (guid other) c).1

-- `excludePlayer`
unfoldable pub exclude_player : (ℕ → ℕ) → ℕ → ℕ → PrivateChannel → PrivateChannel
exclude_player guid player other c =
    let r = remove_invited (guid other) c in
    if player == other || not r.0 then c else remove_user other r.1

-- `Chat::removeUserFromChannel` on a private channel: its answer, and the channel, none where the
-- owner's is deleted.
unfoldable pub remove_user_from_channel :
    (ℕ → ℕ) → Bool → ℕ → PrivateChannel → Bool × Option PrivateChannel
remove_user_from_channel guid removed player c =
    if removed || not (is_invited (guid player) c)
    then (false, some c)
    else (if c.owner == guid player then (true, none) else (true, some (remove_user player c)))
