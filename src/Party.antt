-- ===== src/Party.antt =====
-- src/party.cpp and src/party.h, with the functions of src/player.cpp that keep a player's list of
-- invitations. A player is named by a number, which stands for the pointer and for `getID()`; what the
-- party reads of the players and of the configuration is `Env`, and what it writes is `Players`. The
-- icons and texts that are sent are not modelled. `disband` deletes the object: the party is `none`.
pub mod Experience
pub mod Operations
pub mod Sharing
pub mod Points
pub mod Invariant
pub mod Worlds
pub mod Disband
pub mod Lifecycle
pub mod Calls
pub mod Leaving
pub mod Reach
mod Tests
use otxserver.Common.{
  ℕ, zero, suc, ◌+◌, ◌-◌, ◌*◌, ◌/◌, ◌%◌, ◌^◌, ◌≤◌, ◌<◌, min, max, ◌≡◌, refl, sym, ap, ◌∙◌, ◌≢◌, ◌↔◌,
  ◌⊎◌, inl, inr, Bool, true, false, not, ◌&&◌, ◌||◌, Option, none, some, List, [], ◌∷◌, ◌++◌, map,
  arith, ltb, leb, ◌==◌, if◌then◌else◌, ltb→lt, lt→ltb, leb→le, ==_iff, ==_refl, Bool-cases,
  Option-cases, dist, length, get_elem?, get_or, set, take, drop, length-append, take-append,
  drop-append, All, All-append,
}
use otxserver.Common.Sets.{mem, erase}
use otxserver.Position.{Position, are_in_range}

-- What is read of the players, the configuration and the clock. `min_level highest` is
-- ceil(highest * PARTY_DIFFERENCE); `by_guid` is `g_game.getPlayerByGUID`.
pub record Env : Type 0 where
  pub removed : ℕ → Bool
  pub level : ℕ → ℕ
  pub vocation_id : ℕ → ℕ
  pub in_protection_zone : ℕ → Bool
  pub position : ℕ → Position
  pub guid : ℕ → ℕ
  pub by_guid : ℕ → Option ℕ
  pub now : ℕ
  pub radius : Position
  pub min_level : ℕ → ℕ
  pub share_activity : ℕ
  pub party_vocation_mult : Bool

-- `m_party` and `m_invitePartyList` of each player; a party is named by a number.
pub record Players : Type 0 where
  pub party_of : ℕ → Option ℕ
  pub invitations : ℕ → List ℕ

-- The value of `currentExpMultiplier`: 1, or one of the three configured numbers.
pub data Multiplier : Type 0 where
  one two_vocation three_vocation four_vocation : Multiplier

-- `CountBlock_t`; the totals are int32_t bit patterns.
pub record CountBlock : Type 0 where
  pub ticks : ℕ
  pub total_heal : ℕ
  pub total_damage : ℕ

pub record Party : Type 0 where
  pub id : ℕ
  pub leader : ℕ
  pub member_list : List ℕ
  pub invite_list : List ℕ
  pub shared_exp_active : Bool
  pub shared_exp_enabled : Bool
  pub exp_multiplier : Multiplier
  pub point_map : List (ℕ × CountBlock)

-- The answer of a call, the players after it, and the party, if it is not deleted.
pub record Outcome : Type 0 where
  pub answer : Bool
  pub players : Players
  pub party : Option Party

abbrev pub update {ℓ} : {A : Type ℓ} → (ℕ → A) → ℕ → A → ℕ → A
update f k v x = if x == k then v else f x

-- `player->setParty(party)`
unfoldable pub set_party : ℕ → Option ℕ → Players → Players
set_party player party w = record w { party_of = update w.party_of player party }

-- `Player::addPartyInvitation`
unfoldable pub add_party_invitation : ℕ → ℕ → Players → Players
add_party_invitation player party w = if mem party (w.invitations player) then w else record w {
  invitations = update w.invitations player (w.invitations player ++ (party ∷ []));
}

-- `Player::removePartyInvitation`
unfoldable pub remove_party_invitation : ℕ → ℕ → Players → Players
remove_party_invitation player party w =
    if mem party (w.invitations player)
    then record w { invitations = update w.invitations player (erase party (w.invitations player)) }
    else w

-- `isPlayerMember` and `isPlayerInvited`; `none` is the null pointer.
unfoldable pub is_player_member : Env → Party → Option ℕ → Bool → Bool
is_player_member env p none result = result
is_player_member env p (some player) result =
    if env.removed player then result else mem player p.member_list

unfoldable pub is_player_invited : Env → Party → Option ℕ → Bool → Bool
is_player_invited env p none result = result
is_player_invited env p (some player) result =
    if env.removed player then result else mem player p.invite_list

abbrev pub is_empty {ℓ} : {A : Type ℓ} → List A → Bool
is_empty [] = true
is_empty (x ∷ xs) = false

unfoldable pub can_disband : Party → Bool
can_disband p = is_empty p.member_list && is_empty p.invite_list

-- `Party(Player*)`
unfoldable pub new_party : ℕ → ℕ → Players → Party × Players
new_party id leader w = (
  record {
    id = id;
    leader = leader;
    member_list = [];
    invite_list = [];
    shared_exp_active = false;
    shared_exp_enabled = false;
    exp_multiplier = Multiplier.one;
    point_map = [];
  },
  set_party leader (some id) w,
)

-- The two loops of `disband`.
unfoldable pub drop_invitations : ℕ → List ℕ → Players → Players
drop_invitations party [] w = w
drop_invitations party (x ∷ xs) w = drop_invitations party xs (remove_party_invitation x party w)

unfoldable pub drop_members : List ℕ → Players → Players
drop_members [] w = w
drop_members (x ∷ xs) w = drop_members xs (set_party x none w)

unfoldable pub disband : Party → Players → Players
disband p w =
    drop_members p.member_list (drop_invitations p.id p.invite_list (set_party p.leader none w))

-- `leader->getGUID() == ownerId || isPlayerMember(g_game.getPlayerByGUID(ownerId))`
unfoldable pub can_open_corpse : Env → Party → ℕ → Bool
can_open_corpse env p owner_id =
    env.guid p.leader == owner_id || is_player_member env p (env.by_guid owner_id) false
