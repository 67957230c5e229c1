-- ===== src/Dht/Samples.antt =====
-- Concrete networks and codecs, at which the tests run.
use mc_prototype.Base.{◌≡◌, refl, String, Option, none, some, Bool, true, false}
use mc_prototype.Dht.Network.{Network, Codec, IsFaithful, no_peers}
use mc_prototype.Dht.Json.{store_local}
use mc_prototype.Dht.Json.Medium.{IsIsolated, IsConnected}

-- A network that keeps every value.
abbrev pub keeper : (B : Type 0) → (B → B → Bool) → B → Network
keeper B same t = record {
  Bytes = B;
  Net = String → Option B;
  put_value = λ s k b. (store_local s k b, none);
  get_value = λ s k. (s, s k);
  same = same;
  tombstone = t;
}

pub keeper-IsConnected :
    (B : Type 0) (same : B → B → Bool) (t : B) → IsConnected (keeper B same t) (λ s. s)
keeper-IsConnected B same t = record {
  puts = λ s k b. refl;
  content_put = λ s k b j. refl;
  gets = λ s k. refl;
  content_get = λ s k j. refl;
}

-- A node that meets nobody.
abbrev pub hermit : (B : Type 0) → (B → B → Bool) → B → Network
hermit B same t = record {
  Bytes = B;
  Net = Unit {0};
  put_value = λ s k b. (s, some no_peers);
  get_value = λ s k. (s, none);
  same = same;
  tombstone = t;
}

pub hermit-IsIsolated : (B : Type 0) (same : B → B → Bool) (t : B) → IsIsolated (hermit B same t)
hermit-IsIsolated B same t = record { no_put = λ s k b. refl; no_get = λ s k. refl }

-- A document as a test sees it: the empty object, or one of a given type, if that is its type.
pub data Content (A : Type 0) : Type 0 where
  blank foreign : Content A
  document : A → Content A

abbrev pub read_content : {A : Type 0} → Content A → A → A × Bool
read_content blank a = (a, true)
read_content foreign a = (a, false)
read_content (document b) a = (b, true)

abbrev pub codec : {B A : Type 0} → (A → B) → (B → Content A) → Codec B A
codec write read = record { marshal = λ a. some (write a); unmarshal = λ b. read_content (read b) }

pub codec-IsFaithful :
    {B A : Type 0} (t : B) (z : A) (write : A → B) (read : B → Content A)
    → read t ≡ blank
    → ((a : A) → read (write a) ≡ document a)
    → IsFaithful t z (codec write read)
codec-IsFaithful t z write read empty back = record {
  total = λ a. (write a, refl, rw (back a) refl);
  blank = λ a. rw empty refl;
}
