-- ===== src/Dht/Json/Documents.antt =====
-- PutJSON, GetJSON and DelJSON over a document store that is a map: what is read at a key is the last
-- document that was put there.
use mc_prototype.Base.{
  Option-cases, ◌≡◌, ◌≢◌, refl, ap, ◌∙◌, String, Option, none, some, Bool, true, false, arith,
  str_ne, eq_refl, inl, inr,
}
use mc_prototype.Dht.Network.{Network, Codec, IsFaithful}
use mc_prototype.Dht.Json.{Node, put_json, get_json, del_json, decode}
use mc_prototype.Dht.Json.Medium.{IsMap}

-- What a document reads as, into the target `z`, and whether reading it gives no error.
abbrev pub read_doc : {B A : Type 0} → Codec B A → A → Option B → A × Bool
read_doc c z none = (z, false)
read_doc c z (some b) = c.unmarshal b z

module _ (n : Network) (ns : String) (holds : Node n → String → Option n.Bytes)
    (m : IsMap n ns holds) where
  module _ {A : Type 0} (c : Codec n.Bytes A) where
    pub get_json_value :
        (nd : Node n) (k : String) (z : A)
        → (get_json n ns c nd k z).1 ≡ (read_doc c z (holds nd k)).0
    unfolding get_json decode
    get_json_value nd k z = ground (arith, m.get_reads nd k)

    pub get_json_ok :
        (nd : Node n) (k : String) (z : A)
        → (get_json n ns c nd k z).2 ≡ (read_doc c z (holds nd k)).1
    unfolding get_json decode
    get_json_ok nd k z = ground (arith, m.get_reads nd k)

    -- A document that is there is what GetJSON returns.
    pub get_json_found :
        (nd : Node n) (k : String) (z a : A)
        → read_doc c z (holds nd k) ≡ (a, true)
        → get_json n ns c nd k z ≡ ((get_json n ns c nd k z).0, a, true)
    get_json_found nd k z a h = ground (arith, get_json_value nd k z, get_json_ok nd k z, h)

    pub holds_get_json :
        (nd : Node n) (k : String) (z : A) (j : String)
        → holds (get_json n ns c nd k z).0 j ≡ holds nd j
    unfolding get_json decode
    holds_get_json nd k z j = ground (arith, m.holds_get nd k j)

    -- A put document changes no other key.
    pub holds_put_json :
        (nd : Node n) (k : String) (a : A) (j : String)
        → k ≢ j
        → holds (put_json n ns c nd k a).0 j ≡ holds nd j
    unfolding put_json
    holds_put_json nd k a j h = elim (Option-cases (c.marshal a)) [
      | inl e ↦ rw (e, put_json) refl
      | inr (b, e) ↦ rw (e, put_json) (m.holds_put nd k b j ∙ rw (str_ne k j h) refl)
    ]

    -- And it is what is read back.
    pub put_json_doc :
        (nd : Node n) (k : String) (z a : A)
        → IsFaithful n.tombstone z c
        → ((put_json n ns c nd k a).1 ≡ true)
          × (read_doc c z (holds (put_json n ns c nd k a).0 k) ≡ (a, true))
    unfolding put_json
    put_json_doc nd k z a f =
        let (b, e, back) = f.total a in
        rw (e, put_json)
          (
            m.put_ok nd k b,
            ap (read_doc c z) {y = some b} (m.holds_put nd k b k ∙ rw (eq_refl k) refl) ∙ back,
          )

    pub put_json_bytes :
        (nd : Node n) (k : String) (z a : A)
        → IsFaithful n.tombstone z c
        → holds (put_json n ns c nd k a).0 k ≡ c.marshal a
    unfolding put_json
    put_json_bytes nd k z a f =
        let (b, e, back) = f.total a in
        rw (e, put_json) (m.holds_put nd k b k ∙ rw (eq_refl k) refl)

    pub put_json_done :
        (nd : Node n) (k : String) (z a : A)
        → IsFaithful n.tombstone z c
        → put_json n ns c nd k a ≡ ((put_json n ns c nd k a).0, true)
    put_json_done nd k z a f = ground (arith, (put_json_doc nd k z a f).0)

    -- After DelJSON the target stays as it was.
    pub del_json_doc :
        (nd : Node n) (k : String) (z : A)
        → IsFaithful n.tombstone z c
        → (read_doc c z (holds (del_json n ns nd k).0 k)).0 ≡ z
    del_json_doc nd k z f = elim (m.holds_del_self nd k) [
      | inl e ↦ rw e refl
      | inr e ↦ rw e (ap (λ (p : A × Bool). p.0) (f.blank z))
    ]
