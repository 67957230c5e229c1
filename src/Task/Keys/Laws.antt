-- ===== src/Task/Keys/Laws.antt =====
-- The documents of one job stand at different keys.
use Prim.Native.String.{◌++◌}
use text.Mathlib.TextLemmas.{append_cancel_left, append_inj, append_assoc}
use mc_prototype.Task.Keys.{
  key_meta, key_state, key_manifest, key_lease, key_task_ad, key_p2p_manifest_mirror,
  key_index_shard,
}
use mc_prototype.Base.{ℕ, ◌≡◌, ◌≢◌, refl, sym, ◌∙◌, String, arith, eq_iff, str_eq, false}

pub literal_ne : (s t : String) → str_eq s t ≡ false → s ≢ t
literal_ne s t h e = ground (arith, eq_iff s t)

-- Under the prefix "task/" the last member tells the keys of a job apart.
pub suffix_ne : (id s t : String) → str_eq s t ≡ false → "task/" ++ (id ++ s) ≢ "task/" ++ (id ++ t)
suffix_ne id s t h e =
    literal_ne s t h (append_cancel_left id s t (append_cancel_left "task/" (id ++ s) (id ++ t) e))

pub task_ne_ad : (x y : String) → "task/" ++ x ≢ "ad/" ++ y
task_ne_ad x y e =
    literal_ne "tas" "ad/" refl
      (append_inj {s₁ = "tas"} {s₂ = "ad/"} {t₁ = "k/" ++ x} {t₂ = y}
        (sym (append_assoc "tas" "k/" x) ∙ e) refl).0

pub task_ne_p2p : (x y : String) → "task/" ++ x ≢ "p2p/" ++ y
task_ne_p2p x y e =
    literal_ne "task" "p2p/" refl
      (append_inj {s₁ = "task"} {s₂ = "p2p/"} {t₁ = "/" ++ x} {t₂ = y}
        (sym (append_assoc "task" "/" x) ∙ e) refl).0

pub ad_ne_p2p : (x y : String) → "ad/" ++ x ≢ "p2p/" ++ y
ad_ne_p2p x y e =
    literal_ne "ad/" "p2p" refl
      (append_inj {s₁ = "ad/"} {s₂ = "p2p"} {t₁ = x} {t₂ = "/" ++ y} (e ∙ append_assoc "p2p" "/" y)
        refl).0

pub task_ne_ns : (x y : String) → "task/" ++ x ≢ "ns/" ++ y
task_ne_ns x y e =
    literal_ne "tas" "ns/" refl
      (append_inj {s₁ = "tas"} {s₂ = "ns/"} {t₁ = "k/" ++ x} {t₂ = y}
        (sym (append_assoc "tas" "k/" x) ∙ e) refl).0

module _ (ns id : String) where
  pub state_ne_lease : key_state id ≢ key_lease id
  unfolding key_state key_lease
  state_ne_lease = suffix_ne id "/state" "/lease" refl

  pub lease_ne_state : key_lease id ≢ key_state id
  unfolding key_state key_lease
  lease_ne_state = suffix_ne id "/lease" "/state" refl

  pub meta_ne_state : key_meta id ≢ key_state id
  unfolding key_state key_meta
  meta_ne_state = suffix_ne id "/meta" "/state" refl

  pub state_ne_meta : key_state id ≢ key_meta id
  unfolding key_state key_meta
  state_ne_meta = suffix_ne id "/state" "/meta" refl

  pub ad_ne_state : key_task_ad ns id ≢ key_state id
  unfolding key_task_ad key_state
  ad_ne_state e = task_ne_ad _ _ (sym e)

  pub ad_ne_lease : key_task_ad ns id ≢ key_lease id
  unfolding key_task_ad key_lease
  ad_ne_lease e = task_ne_ad _ _ (sym e)

  pub ad_ne_mirror : key_task_ad ns id ≢ key_p2p_manifest_mirror id
  unfolding key_task_ad key_p2p_manifest_mirror
  ad_ne_mirror e = ad_ne_p2p _ _ e

  pub mirror_ne_state : key_p2p_manifest_mirror id ≢ key_state id
  unfolding key_p2p_manifest_mirror key_state
  mirror_ne_state e = task_ne_p2p _ _ (sym e)

  pub mirror_ne_lease : key_p2p_manifest_mirror id ≢ key_lease id
  unfolding key_p2p_manifest_mirror key_lease
  mirror_ne_lease e = task_ne_p2p _ _ (sym e)

  pub mirror_ne_ad : key_p2p_manifest_mirror id ≢ key_task_ad ns id
  unfolding key_p2p_manifest_mirror key_task_ad
  mirror_ne_ad e = ad_ne_p2p _ _ (sym e)

  pub manifest_ne_state : key_manifest id ≢ key_state id
  unfolding key_manifest key_state
  manifest_ne_state = suffix_ne id "/manifest" "/state" refl

  pub ad_ne_manifest : key_task_ad ns id ≢ key_manifest id
  unfolding key_task_ad key_manifest
  ad_ne_manifest e = task_ne_ad _ _ (sym e)

  pub mirror_ne_manifest : key_p2p_manifest_mirror id ≢ key_manifest id
  unfolding key_p2p_manifest_mirror key_manifest
  mirror_ne_manifest e = task_ne_p2p _ _ (sym e)

  pub index_ne_state : (shard : ℕ) → key_index_shard ns shard ≢ key_state id
  unfolding key_index_shard key_state
  index_ne_state shard e = task_ne_ns _ _ (sym e)

  pub index_ne_meta : (shard : ℕ) → key_index_shard ns shard ≢ key_meta id
  unfolding key_index_shard key_meta
  index_ne_meta shard e = task_ne_ns _ _ (sym e)
