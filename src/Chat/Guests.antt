-- ===== src/Chat/Guests.antt =====
-- Only the owner and those who are invited use a private channel of src/chat.cpp.
use otxserver.Common.{
  ℕ, ◌≡◌, refl, inl, inr, Bool, true, false, not, ◌||◌, List, [], ◌∷◌, arith, ◌==◌, ==_iff,
  Bool-cases, if_intro, if_elim,
}
use otxserver.Common.Sets.{
  mem, Distinct, mem-append_one, mem-erase, append_one-Distinct, erase-Distinct,
}
use otxserver.Chat.{
  PrivateChannel, is_invited, add_invited, remove_invited, remove_user, add_user, invite_player,
  exclude_player,
}

-- Nobody is invited twice, and each user is invited, or the owner.
abbrev pub Private : (ℕ → ℕ) → PrivateChannel → Type 0
Private guid c = Distinct c.invites × ((i : ℕ) → c.users i ≡ true → is_invited (guid i) c ≡ true)

-- The calls of a channel.
pub data Call : Type 0 where
  joins : Bool → ℕ → Call
  leaves : ℕ → Call
  invites : ℕ → ℕ → Call
  excludes : ℕ → ℕ → Call

unfoldable pub call : (ℕ → ℕ) → Call → PrivateChannel → PrivateChannel
call guid (joins removed p) c = (add_user guid removed p c).1
call guid (leaves p) c = remove_user p c
call guid (invites p q) c = invite_player guid p q c
call guid (excludes p q) c = exclude_player guid p q c

unfoldable pub run : (ℕ → ℕ) → List Call → PrivateChannel → PrivateChannel
run guid [] c = c
run guid (x ∷ xs) c = run guid xs (call guid x c)

or_true : (b : Bool) → b || true ≡ true
or_true true = refl
or_true false = refl

module _ (guid : ℕ → ℕ) where
  remove_user-Private :
      (p : ℕ) (c : PrivateChannel) → Private guid c → Private guid (remove_user p c)
  unfolding remove_user is_invited
  remove_user-Private p c h = (
    h.0,
    λ i u. elim (Bool-cases (i == p)) [
      | inl e ↦ let v = rw e at u in cc
      | inr e ↦ h.1 i (rw e at u)
    ],
  )

  add_user-Private :
      (removed : Bool) (p : ℕ) (c : PrivateChannel)
      → Private guid c
      → Private guid (add_user guid removed p c).1
  unfolding add_user is_invited
  add_user-Private removed p c h =
      if_intro (λ (r : Bool × PrivateChannel). Private guid r.1) (c.users p) h
        (if_elim (λ (r : Bool × PrivateChannel). Private guid r.1)
          (removed || not (guid p == c.owner || mem (guid p) c.invites)) (λ e. h)
          (λ e. (
            h.0,
            λ i u. elim (Bool-cases (i == p)) [
              | inl f ↦ let same = (==_iff i p).0 f in rw same (ground arith)
              | inr f ↦ h.1 i (rw f at u)
            ],
          )))

  invite_player-Private :
      (p q : ℕ) (c : PrivateChannel) → Private guid c → Private guid (invite_player guid p q c)
  unfolding invite_player add_invited is_invited
  invite_player-Private p q c h = if_intro (Private guid) (p == q) h (
      if_elim (λ (r : Bool × PrivateChannel). Private guid r.1) (mem (guid q) c.invites) (λ e. h)
        (λ e. (
          append_one-Distinct (guid q) c.invites h.0 e,
          λ i u. rw (mem-append_one (guid i) (guid q) c.invites) (ground (arith, h.1 i u)),
        )))

  exclude_player-Private :
      (p q : ℕ) (c : PrivateChannel)
      → ((i j : ℕ) → guid i ≡ guid j → i ≡ j)
      → Private guid c
      → Private guid (exclude_player guid p q c)
  unfolding exclude_player remove_invited remove_user is_invited
  exclude_player-Private p q c one h = elim (Bool-cases (mem (guid q) c.invites)) [
    | inr e ↦ rw (e, or_true (p == q)) h
    | inl e ↦ rw e (
        if_intro (Private guid) (p == q || false) h (
          erase-Distinct (guid q) c.invites h.0,
          λ i u. elim (Bool-cases (i == q)) [
            | inl f ↦ let v = rw f at u in cc
            | inr f ↦
                let apart : (guid i == guid q) ≡ false =
                  ground (arith, one i q, ==_iff i q, ==_iff (guid i) (guid q)) in
                rw (mem-erase (guid i) (guid q) c.invites h.0, apart)
                  (ground (arith, h.1 i (rw f at u)))
          ],
        ))
  ]

  -- Where different players have different GUIDs: through any sequence of calls by which players join
  -- and leave a private channel, are invited and excluded, each user of the channel is its owner or
  -- invited, and nobody is invited twice.
  pub run-Private :
      (xs : List Call) (c : PrivateChannel)
      → ((i j : ℕ) → guid i ≡ guid j → i ≡ j)
      → Private guid c
      → Private guid (run guid xs c)
  unfolding run call
  run-Private [] c one h = h
  run-Private (joins removed p ∷ xs) c one h = run-Private xs _ one (add_user-Private removed p c h)
  run-Private (leaves p ∷ xs) c one h = run-Private xs _ one (remove_user-Private p c h)
  run-Private (invites p q ∷ xs) c one h = run-Private xs _ one (invite_player-Private p q c h)
  run-Private (excludes p q ∷ xs) c one h =
      run-Private xs _ one (exclude_player-Private p q c one h)
