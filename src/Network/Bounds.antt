-- ===== src/Network/Bounds.antt =====
-- Which bytes the writing functions of src/networkmessage.cpp touch.
use otxserver.Common.{
  ℕ, zero, suc, ◌+◌, ◌≤◌, ◌<◌, ◌≡◌, refl, ap, ◌∙◌, ◌⊎◌, inl, inr, Bool, true, false, not, ◌||◌,
  List, [], ◌∷◌, arith, ltb, if◌then◌else◌, ltb→lt, length,
}
use otxserver.Common.Memory.{poke_bytes_frame, length-to_bytes, to_bytes}
use otxserver.Position.{Position}
use otxserver.Network.{
  Message, ItemView, max_body_length, can_add, put, add, add_byte, add_string, add_bytes,
  add_padding_bytes, add_position, add_item, padding,
}

-- What one call of a writing function may do: the position stays below MAX_BODY_LENGTH, it does not
-- go back, and no byte changes before the old position or from MAX_BODY_LENGTH on.
pub record Keeps (m m' : Message) : Type 0 where
  pub bound : m'.position < max_body_length
  pub forward : m.position ≤ m'.position
  pub before : (j : ℕ) → j < m.position → m'.buffer j ≡ m.buffer j
  pub beyond : (j : ℕ) → max_body_length ≤ j → m'.buffer j ≡ m.buffer j

Keeps-refl : (m : Message) → m.position < max_body_length → Keeps m m
Keeps-refl m h = record {
  bound = h;
  forward = omega arith;
  before = λ j k. refl;
  beyond = λ j k. refl;
}

Keeps-trans : (m n p : Message) → Keeps m n → Keeps n p → Keeps m p
Keeps-trans m n p h k = record {
  bound = k.bound;
  forward = omega arith;
  before = λ j l. k.before j (omega arith) ∙ h.before j l;
  beyond = λ j l. k.beyond j l ∙ h.beyond j l;
}

put-Keeps :
    (bs : List ℕ) (m : Message) → length bs + m.position < max_body_length → Keeps m (put bs m)
unfolding put
put-Keeps bs m h = record {
  bound = omega arith;
  forward = omega arith;
  before = λ j k. poke_bytes_frame m.buffer m.position bs j (inl k);
  beyond = λ j k. poke_bytes_frame m.buffer m.position bs j (inr (omega arith));
}

-- A guarded step, on both branches.
if-Keeps :
    (c : Bool) (m n p : Message)
    → (c ≡ true → Keeps m n)
    → (c ≡ false → Keeps m p)
    → Keeps m (if c then n else p)
if-Keeps true m n p h k = h refl
if-Keeps false m n p h k = k refl

add-Keeps : (n v : ℕ) (m : Message) → m.position < max_body_length → Keeps m (add n v m)
unfolding add can_add
add-Keeps n v m h =
    if-Keeps (ltb (n + m.position) max_body_length) m (put (to_bytes n v) m) m
      (λ e. put-Keeps (to_bytes n v) m (omega (arith, ltb→lt, e, length-to_bytes n v)))
      (λ e. Keeps-refl m h)

-- A field of `n` bytes takes `n` bytes at most.
add-position :
    (n v : ℕ) (m : Message) → m.position < max_body_length → (add n v m).position ≤ m.position + n
unfolding add can_add put
add-position n v m h = ground (arith, length-to_bytes n v)

add_string-Keeps :
    (s : List ℕ) (m : Message) → m.position < max_body_length → Keeps m (add_string s m)
unfolding add_string can_add
add_string-Keeps s m h =
    if-Keeps (not (ltb (length s + 2 + m.position) max_body_length) || ltb 8192 (length s)) m m
      (put s (add 2 (length s) m)) (λ e. Keeps-refl m h)
      λ e.
        let fits : length s + 2 + m.position < max_body_length = ground arith in
        Keeps-trans m (add 2 (length s) m) _ (add-Keeps 2 (length s) m h)
          (put-Keeps s (add 2 (length s) m) (omega (arith, add-position 2 (length s) m h)))

add_bytes-Keeps :
    (s : List ℕ) (m : Message) → m.position < max_body_length → Keeps m (add_bytes s m)
unfolding add_bytes can_add
add_bytes-Keeps s m h =
    if-Keeps (not (ltb (length s + m.position) max_body_length) || ltb 8192 (length s)) m m
      (put s m) (λ e. Keeps-refl m h) λ e. put-Keeps s m (ground arith)

length-padding : (n : ℕ) → length (padding n) ≡ n
length-padding zero = refl
length-padding (suc n) = ap suc (length-padding n)

add_padding_bytes-Keeps :
    (n : ℕ) (m : Message) → m.position < max_body_length → Keeps m (add_padding_bytes n m)
unfolding add_padding_bytes can_add
add_padding_bytes-Keeps n m h =
    if-Keeps (ltb (n + m.position) max_body_length) m _ m
      (λ e. record {
        bound = h;
        forward = omega arith;
        before = λ j k. poke_bytes_frame m.buffer m.position (padding n) j (inl k);
        beyond = λ j k.
            poke_bytes_frame m.buffer m.position (padding n) j
              (inr (omega (arith, ltb→lt, e, length-padding n)));
      })
      (λ e. Keeps-refl m h)

-- The calls that write to a message.
pub data Write : Type 0 where
  number : ℕ → ℕ → Write
  string : List ℕ → Write
  raw : List ℕ → Write
  pad : ℕ → Write
  place : Position → Write
  item : ItemView → Write

unfoldable pub do_write : Write → Message → Message
do_write (number n v) m = add n v m
do_write (string s) m = add_string s m
do_write (raw s) m = add_bytes s m
do_write (pad n) m = add_padding_bytes n m
do_write (place p) m = add_position p m
do_write (item i) m = add_item i m

unfoldable pub do_writes : List Write → Message → Message
do_writes [] m = m
do_writes (w ∷ ws) m = do_writes ws (do_write w m)

do_write-Keeps : (w : Write) (m : Message) → m.position < max_body_length → Keeps m (do_write w m)
unfolding do_write add_position add_byte add_item
do_write-Keeps (number n v) m h = add-Keeps n v m h
do_write-Keeps (string s) m h = add_string-Keeps s m h
do_write-Keeps (raw s) m h = add_bytes-Keeps s m h
do_write-Keeps (pad n) m h = add_padding_bytes-Keeps n m h
do_write-Keeps (place p) m h =
    let k1 = add-Keeps 2 p.x m h in
    let k2 = add-Keeps 2 p.y _ k1.bound in
    let k3 = add-Keeps 1 p.z _ k2.bound in Keeps-trans m _ _ k1 (Keeps-trans _ _ _ k2 k3)
do_write-Keeps (item i) m h =
    let k1 = add-Keeps 2 i.client_id m h in
    if-Keeps i.stackable m _ _ (λ e. Keeps-trans m _ _ k1 (add-Keeps 1 _ _ k1.bound))
      λ e.
        if-Keeps i.splash_or_fluid m _ _ (λ e'. Keeps-trans m _ _ k1 (add-Keeps 1 _ _ k1.bound))
          (λ e'. k1)

do_writes-Keeps :
    (ws : List Write) (m : Message) → m.position < max_body_length → Keeps m (do_writes ws m)
unfolding do_writes
do_writes-Keeps [] m h = Keeps-refl m h
do_writes-Keeps (w ∷ ws) m h =
    let k = do_write-Keeps w m h in
    Keeps-trans m (do_write w m) _ k (do_writes-Keeps ws (do_write w m) k.bound)

-- From a position below MAX_BODY_LENGTH no sequence of writes moves the position to MAX_BODY_LENGTH
-- or beyond, or back, or changes a byte before the position that it began at or from
-- MAX_BODY_LENGTH on: no write leaves the array of NETWORKMESSAGE_MAXSIZE bytes.
pub do_writes_frame :
    (ws : List Write) (m : Message) (j : ℕ)
    → m.position < max_body_length
    → (j < m.position) ⊎ (max_body_length ≤ j)
    → ((do_writes ws m).buffer j ≡ m.buffer j)
      × (m.position ≤ (do_writes ws m).position)
      × ((do_writes ws m).position < max_body_length)
do_writes_frame ws m j h (inl k) =
    let r = do_writes-Keeps ws m h in (r.before j k, r.forward, r.bound)
do_writes_frame ws m j h (inr k) =
    let r = do_writes-Keeps ws m h in (r.beyond j k, r.forward, r.bound)
