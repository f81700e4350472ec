-- ===== src/Keyring/Serialize.antt =====
-- packages/keyring-proxy/src/index.ts: `serializeBigInt`, on JavaScript values.
use siwa.Base.{Bool, true, false, ◌&&◌, ◌≡◌, refl, ap, ap₂, arith}
use siwa.Base.Int.{ℤ, int}
use siwa.Base.Numbers.{show_number}
use siwa.Base.Str.{Str}

mutual
  pub data Value : Type 0 where
    undefined : Value
    null : Value
    bool : Bool → Value
    num : ℤ → Value
    bigint : ℤ → Value
    str : Str → Value
    arr : Values → Value
    obj : Members → Value

  pub data Values : Type 0 where
    nil : Values
    cons : Value → Values → Values

  pub data Members : Type 0 where
    end : Members
    member : Str → Value → Members → Members

unfoldable mutual
  unfolding show_number

  pub serialize_big_int : Value → Value
  serialize_big_int (bigint z) = str (show_number (int z))
  serialize_big_int (arr vs) = arr (serialize_items vs)
  serialize_big_int (obj ms) = obj (serialize_members ms)
  serialize_big_int v = v

  pub serialize_items : Values → Values
  serialize_items nil = nil
  serialize_items (cons v vs) = cons (serialize_big_int v) (serialize_items vs)

  pub serialize_members : Members → Members
  serialize_members end = end
  serialize_members (member k v ms) = member k (serialize_big_int v) (serialize_members ms)

-- JSON.stringify takes the value: a bigint at any depth makes it throw.
unfoldable mutual
  pub is_serializable : Value → Bool
  is_serializable (bigint z) = false
  is_serializable (arr vs) = items_serializable vs
  is_serializable (obj ms) = members_serializable ms
  is_serializable v = true

  pub items_serializable : Values → Bool
  items_serializable nil = true
  items_serializable (cons v vs) = is_serializable v && items_serializable vs

  pub members_serializable : Members → Bool
  members_serializable end = true
  members_serializable (member k v ms) = is_serializable v && members_serializable ms

mutual
  unfolding is_serializable serialize_big_int items_serializable serialize_items
      members_serializable serialize_members

  serialized : (v : Value) → is_serializable (serialize_big_int v) ≡ true
  serialized undefined = refl
  serialized null = refl
  serialized (bool b) = refl
  serialized (num z) = refl
  serialized (bigint z) = refl
  serialized (str s) = refl
  serialized (arr vs) = serialized_items vs
  serialized (obj ms) = serialized_members ms

  serialized_items : (vs : Values) → items_serializable (serialize_items vs) ≡ true
  serialized_items nil = refl
  serialized_items (cons v vs) = rw (serialized v) (serialized_items vs)

  serialized_members : (ms : Members) → members_serializable (serialize_members ms) ≡ true
  serialized_members end = refl
  serialized_members (member k v ms) = rw (serialized v) (serialized_members ms)

mutual
  unfolding is_serializable serialize_big_int items_serializable serialize_items
      members_serializable serialize_members

  unchanged : (v : Value) → is_serializable v ≡ true → serialize_big_int v ≡ v
  unchanged undefined h = refl
  unchanged null h = refl
  unchanged (bool b) h = refl
  unchanged (num z) h = refl
  unchanged (bigint z) h = cc
  unchanged (str s) h = refl
  unchanged (arr vs) h = ap arr (unchanged_items vs h)
  unchanged (obj ms) h = ap obj (unchanged_members ms h)

  unchanged_items : (vs : Values) → items_serializable vs ≡ true → serialize_items vs ≡ vs
  unchanged_items nil h = refl
  unchanged_items (cons v vs) h =
      ap₂ cons (unchanged v (ground arith)) (unchanged_items vs (ground arith))

  unchanged_members : (ms : Members) → members_serializable ms ≡ true → serialize_members ms ≡ ms
  unchanged_members end h = refl
  unchanged_members (member k v ms) h =
      ap₂ (member k) (unchanged v (ground arith)) (unchanged_members ms (ground arith))

-- What is sent of a signed value can be written as JSON, and a value that can be written is sent as it
-- is.
pub serialize_big_int-is_serializable :
    (v : Value)
    → (is_serializable (serialize_big_int v) ≡ true)
      × (is_serializable v ≡ true → serialize_big_int v ≡ v)
serialize_big_int-is_serializable v = (serialized v, unchanged v)
