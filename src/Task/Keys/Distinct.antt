-- ===== src/Task/Keys/Distinct.antt =====
-- The documents of different jobs, and those of the index, stand at different keys.
use Prim.Native.String.{count, ◌++◌}
use text.Mathlib.TextLemmas.{
  append_cancel_left, append_cancel_right, append_inj, append_assoc, append-eq-nil_iff,
  length-append,
}
use mc_prototype.Base.{str_eq, ℕ, ◌≡◌, ◌≢◌, refl, sym, ap, ◌∙◌, String, false, arith}
use mc_prototype.Text.{has_suffix}
use mc_prototype.Text.Affixes.{last, has_suffix-append, has_suffix-append-false, ends_apart}
use mc_prototype.Task.Keys.{
  key_lease, two_digits, key_index, key_meta, key_state, key_manifest, key_task_ad,
  key_p2p_manifest_mirror, key_index_shard,
}
use mc_prototype.Task.Keys.Laws.{
  suffix_ne, manifest_ne_state, literal_ne, task_ne_ad, task_ne_p2p, ad_ne_p2p, task_ne_ns,
  ad_ne_manifest, mirror_ne_manifest,
}

-- Texts that end otherwise are different.
ends_ne : (x y s t : String) → has_suffix (y ++ t) s ≡ false → x ++ s ≢ y ++ t
ends_ne x y s t h e =
    ground (arith, has_suffix-append x s, ap (λ (z : String). has_suffix z s) e, h)

state_ends : (s : String) → has_suffix (s ++ "/state") "/manifest" ≡ false
unfolding last
state_ends s = has_suffix-append-false s "/" "/" "state" "manifest" (ends_apart "e" "t" refl)

state_not_meta : (s : String) → has_suffix (s ++ "/state") "/meta" ≡ false
unfolding last
state_not_meta s = has_suffix-append-false s "/" "/" "state" "meta" (ends_apart "e" "a" refl)

manifest_not_meta : (s : String) → has_suffix (s ++ "/manifest") "/meta" ≡ false
unfolding last
manifest_not_meta s = has_suffix-append-false s "/" "/" "manifest" "meta" (ends_apart "t" "a" refl)

manifest_not_lease : (s : String) → has_suffix (s ++ "/manifest") "/lease" ≡ false
unfolding last
manifest_not_lease s =
    has_suffix-append-false s "/" "/" "manifest" "lease" (ends_apart "t" "e" refl)

-- Texts that differ in their ends of the same length are different.
same_length_ne : (x y s t : String) → count s ≡ count t → str_eq s t ≡ false → x ++ s ≢ y ++ t
same_length_ne x y s t l d e =
    literal_ne s t d
      (append_inj {s₁ = x} {s₂ = y} {t₁ = s} {t₂ = t} e
        (omega (arith, l, length-append x s, length-append y t, ap count e))).1

ad_ne_ns : (x y : String) → "ad/" ++ x ≢ "ns/" ++ y
ad_ne_ns x y e =
    literal_ne "ad/" "ns/" refl (append_inj {s₁ = "ad/"} {s₂ = "ns/"} {t₁ = x} {t₂ = y} e refl).0

p2p_ne_ns : (x y : String) → "p2p/" ++ x ≢ "ns/" ++ y
p2p_ne_ns x y e =
    literal_ne "p2p" "ns/" refl
      (append_inj {s₁ = "p2p"} {s₂ = "ns/"} {t₁ = "/" ++ x} {t₂ = y}
        (sym (append_assoc "p2p" "/" x) ∙ e) refl).0

-- The index that is one document is no shard.
pub global_ne_shard : (ns : String) (shard : ℕ) → key_index ns ≢ key_index_shard ns shard
unfolding key_index key_index_shard
global_ne_shard ns shard e =
    let ends = append_cancel_left ns "/task/index" ("/task/index/" ++ two_digits shard) (
      append_cancel_left "ns/" (ns ++ "/task/index") (ns ++ ("/task/index/" ++ two_digits shard))
        e) in
    let more : "/task/index" ++ "" ≡ "/task/index" ++ ("/" ++ two_digits shard) =
      ends ∙ append_assoc "/task/index" "/" (two_digits shard) in
    let rest = append_cancel_left "/task/index" "" ("/" ++ two_digits shard) more in
    literal_ne "/" "" refl (append-eq-nil_iff.0 (sym rest)).0

module _ (ns id : String) where
  pub manifest_ne_ad : key_manifest id ≢ key_task_ad ns id
  manifest_ne_ad e = ad_ne_manifest ns id (sym e)

  pub manifest_ne_mirror : key_manifest id ≢ key_p2p_manifest_mirror id
  manifest_ne_mirror e = mirror_ne_manifest ns id (sym e)

  pub state_ne_manifest : key_state id ≢ key_manifest id
  state_ne_manifest e = manifest_ne_state ns id (sym e)

  pub meta_ne_manifest : key_meta id ≢ key_manifest id
  unfolding key_meta key_manifest
  meta_ne_manifest = suffix_ne id "/meta" "/manifest" refl

  module _ (shard : ℕ) where
    pub manifest_ne_index : key_manifest id ≢ key_index_shard ns shard
    unfolding key_manifest key_index_shard
    manifest_ne_index e = task_ne_ns _ _ e

    pub lease_ne_index : key_lease id ≢ key_index_shard ns shard
    unfolding key_lease key_index_shard
    lease_ne_index e = task_ne_ns _ _ e

    pub index_ne_manifest : key_index_shard ns shard ≢ key_manifest id
    index_ne_manifest e = manifest_ne_index (sym e)

    pub ad_ne_index : key_task_ad ns id ≢ key_index_shard ns shard
    unfolding key_task_ad key_index_shard
    ad_ne_index e = ad_ne_ns _ _ e

    pub mirror_ne_index : key_p2p_manifest_mirror id ≢ key_index_shard ns shard
    unfolding key_p2p_manifest_mirror key_index_shard
    mirror_ne_index e = p2p_ne_ns _ _ e

module _ (ns id other : String) where
  pub manifest_ne_any_state : key_manifest other ≢ key_state id
  unfolding key_manifest key_state
  manifest_ne_any_state e =
      ends_ne other id "/manifest" "/state" (state_ends id)
        (append_cancel_left "task/" (other ++ "/manifest") (id ++ "/state") e)

  pub state_ne_any_manifest : key_state other ≢ key_manifest id
  unfolding key_manifest key_state
  state_ne_any_manifest e =
      ends_ne id other "/manifest" "/state" (state_ends other)
        (append_cancel_left "task/" (id ++ "/manifest") (other ++ "/state") (sym e))

  pub meta_ne_any_state : key_meta other ≢ key_state id
  unfolding key_meta key_state
  meta_ne_any_state e =
      ends_ne other id "/meta" "/state" (state_not_meta id)
        (append_cancel_left "task/" (other ++ "/meta") (id ++ "/state") e)

  pub meta_ne_any_manifest : key_meta other ≢ key_manifest id
  unfolding key_meta key_manifest
  meta_ne_any_manifest e =
      ends_ne other id "/meta" "/manifest" (manifest_not_meta id)
        (append_cancel_left "task/" (other ++ "/meta") (id ++ "/manifest") e)

  pub lease_ne_any_manifest : key_lease other ≢ key_manifest id
  unfolding key_lease key_manifest
  lease_ne_any_manifest e =
      ends_ne other id "/lease" "/manifest" (manifest_not_lease id)
        (append_cancel_left "task/" (other ++ "/lease") (id ++ "/manifest") e)

  pub lease_ne_any_state : key_lease other ≢ key_state id
  unfolding key_lease key_state
  lease_ne_any_state e =
      same_length_ne other id "/lease" "/state" refl refl
        (append_cancel_left "task/" (other ++ "/lease") (id ++ "/state") e)

  pub ad_ne_any_state : key_task_ad ns other ≢ key_state id
  unfolding key_task_ad key_state
  ad_ne_any_state e = task_ne_ad _ _ (sym e)

  pub mirror_ne_any_state : key_p2p_manifest_mirror other ≢ key_state id
  unfolding key_p2p_manifest_mirror key_state
  mirror_ne_any_state e = task_ne_p2p _ _ (sym e)

  pub manifest_ne_any_ad : key_manifest other ≢ key_task_ad ns id
  unfolding key_manifest key_task_ad
  manifest_ne_any_ad e = task_ne_ad _ _ e

  pub manifest_ne_any_mirror : key_manifest other ≢ key_p2p_manifest_mirror id
  unfolding key_manifest key_p2p_manifest_mirror
  manifest_ne_any_mirror e = task_ne_p2p _ _ e

  pub ad_ne_any_mirror : key_task_ad ns other ≢ key_p2p_manifest_mirror id
  unfolding key_task_ad key_p2p_manifest_mirror
  ad_ne_any_mirror e = ad_ne_p2p _ _ e

  pub ad_ne_any_manifest : key_task_ad ns other ≢ key_manifest id
  unfolding key_task_ad key_manifest
  ad_ne_any_manifest e = task_ne_ad _ _ (sym e)

  pub mirror_ne_any_manifest : key_p2p_manifest_mirror other ≢ key_manifest id
  unfolding key_p2p_manifest_mirror key_manifest
  mirror_ne_any_manifest e = task_ne_p2p _ _ (sym e)

  pub mirror_ne_any_ad : key_p2p_manifest_mirror other ≢ key_task_ad ns id
  unfolding key_p2p_manifest_mirror key_task_ad
  mirror_ne_any_ad e = ad_ne_p2p _ _ (sym e)

  module _ (d : other ≢ id) where
    pub manifest_ne_other : key_manifest other ≢ key_manifest id
    unfolding key_manifest
    manifest_ne_other e = d (
        append_cancel_right other id "/manifest"
          (append_cancel_left "task/" (other ++ "/manifest") (id ++ "/manifest") e))

    pub state_ne_other : key_state other ≢ key_state id
    unfolding key_state
    state_ne_other e = d (
        append_cancel_right other id "/state"
          (append_cancel_left "task/" (other ++ "/state") (id ++ "/state") e))

    pub ad_ne_other : key_task_ad ns other ≢ key_task_ad ns id
    unfolding key_task_ad
    ad_ne_other e = d (
        append_cancel_left "/task/" other id (
          append_cancel_left ns ("/task/" ++ other) ("/task/" ++ id)
            (append_cancel_left "ad/" (ns ++ ("/task/" ++ other)) (ns ++ ("/task/" ++ id)) e)))

    pub mirror_ne_other : key_p2p_manifest_mirror other ≢ key_p2p_manifest_mirror id
    unfolding key_p2p_manifest_mirror
    mirror_ne_other e = d (
        append_cancel_right other id "/manifest"
          (append_cancel_left "p2p/" (other ++ "/manifest") (id ++ "/manifest") e))
