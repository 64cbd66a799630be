-- ===== src/Controller/Watch.antt =====
-- run of cmd/partition-controller/main.go: a reconcile at the start, and one for each update of the
-- StatefulSet that the informer reports. The informer calls its handlers one after the other.
use my_queue.Base.{
  ◌≡◌, refl, ap, ◌∙◌, ◌⊎◌, true, false, Option, none, some, ℤ, pos, negsuc, leb_ℤ, Str, ok, err,
  Assoc, lookup, insert, str_eq, if◌then◌else◌, lookup-insert_self, arith,
}
use my_queue.Controller.Reconcile.{
  Api, Config, ApiLaws, data_or_empty, eq_ℤ, partitions_key, restart_patch, yaml_for, reconcile,
}

module _ (api : Api) (cfg : Config) where
  -- UpdateFunc: the new object is a StatefulSet with a name, or something else.
  unfoldable pub on_update : api.World → ℤ → Option Str → Str → api.World × ℤ
  on_update w last none restarted_at = (w, last)
  on_update w last (some name) restarted_at =
      if str_eq name cfg.ss_name then reconcile api cfg w last restarted_at else (w, last)

  module _ (laws : ApiLaws api cfg) where
    open laws use {config, update-ok, patch-config}

    -- What the ConfigMap says of the partitions.
    abbrev pub entry : api.World → Option Str
    entry w = lookup partitions_key (config w)

    -- The executions of run from a world on: what the API has come to, and lastReplicas.
    pub data Watch (w₀ : api.World) : api.World → ℤ → Type 0 where
      begins :
          (restarted_at : Str)
          → Watch w₀
              (reconcile api cfg w₀ (negsuc 0) restarted_at).0
              (reconcile api cfg w₀ (negsuc 0) restarted_at).1
      notices :
          {w : api.World} {last : ℤ}
          → Watch w₀ w last
          → (object : Option Str) (restarted_at : Str)
          → Watch w₀
              (on_update w last object restarted_at).0
              (on_update w last object restarted_at).1
      -- Others use the API, but leave the entry alone.
      others :
          {w w' : api.World} {last : ℤ} → Watch w₀ w last → entry w' ≡ entry w → Watch w₀ w' last

    -- The API documents that a read changes nothing, and that no replica count is negative.
    pub record Steady : Type 0 where
      pub get_replicas-config : (w : api.World) → config (api.get_replicas w).1 ≡ config w
      pub get_data-config : (w : api.World) → config (api.get_data w).1 ≡ config w
      pub replicas-natural :
          (w : api.World) (n : ℤ) → (api.get_replicas w).0 ≡ ok (some n) → leb_ℤ (pos 0) n ≡ true

    -- A reconcile on this world is not cut off halfway: if its update fails, the ConfigMap is as before, and
    -- its patch does not fail.
    pub record IsUntroubled (w : api.World) : Type 0 where
      pub update-err :
          (entries : Assoc Str) (e : Str)
          → (api.update (api.get_data (api.get_replicas w).1).1 entries).0 ≡ err e
          → config (api.update (api.get_data (api.get_replicas w).1).1 entries).1
            ≡ config (api.get_data (api.get_replicas w).1).1
      pub patch-ok :
          (entries : Assoc Str) (text : Str)
          → (api.patch (api.update (api.get_data (api.get_replicas w).1).1 entries).1 text).0
            ≡ ok tt

    -- No reconcile of an execution has been cut off halfway.
    unfoldable pub Untroubled : {w₀ w : api.World} {last : ℤ} → Watch w₀ w last → Type 0
    Untroubled {w₀ = w₀} (begins at) = IsUntroubled w₀
    Untroubled (notices x none at) = Untroubled x
    Untroubled (notices {w = w} x (some name) at) = Untroubled x × IsUntroubled w
    Untroubled (others x e) = Untroubled x

    -- No count is remembered, or one for which the ConfigMap holds the division.
    abbrev IsInStep : api.World × ℤ → Type 0
    IsInStep t = (t.1 ≡ negsuc 0) ⊎ (entry t.0 ≡ some (yaml_for api cfg t.1))

    update-entry :
        (w : api.World) (n : ℤ) (d : Option (Assoc Str))
        → let new = insert partitions_key (yaml_for api cfg n) (data_or_empty d) in
          (api.update w new).0 ≡ ok tt → entry (api.update w new).1 ≡ some (yaml_for api cfg n)
    update-entry w n d h =
        ap (lookup partitions_key) (update-ok w _ tt h)
        ∙ lookup-insert_self partitions_key (yaml_for api cfg n) (data_or_empty d)

    eq_ℤ-self : (a : ℤ) → eq_ℤ a a ≡ true
    eq_ℤ-self a = ground arith

    -- A failed patch is not made up for: when the replica count changes from the one that is
    -- remembered to another, the ConfigMap is stored, the patch fails, and the count then changes
    -- back, the reconcile at that update takes it for unchanged, and the ConfigMap goes on
    -- dividing the partitions among the other number of pods. This is so if reads and patches
    -- leave the ConfigMap.
    pub scaled_back_is_stale :
        (w w' : api.World) (last n : ℤ) (restarted_at again_at e : Str) (d : Option (Assoc Str))
        → let w₁ = (api.get_data (api.get_replicas w).1).1 in
          let stored =
            api.update w₁ (insert partitions_key (yaml_for api cfg n) (data_or_empty d)) in
          ((v : api.World) → config (api.get_replicas v).1 ≡ config v)
          → eq_ℤ n last ≡ false
          → (api.get_replicas w).0 ≡ ok (some n)
          → (api.get_data (api.get_replicas w).1).0 ≡ ok d
          → stored.0 ≡ ok tt
          → (api.patch stored.1 (restart_patch restarted_at)).0 ≡ err e
          → let t = reconcile api cfg w last restarted_at in
            config w' ≡ config t.0
            → (api.get_replicas w').0 ≡ ok (some last)
            → let t' = reconcile api cfg w' t.1 again_at in
              (t'.1 ≡ last) × (entry t'.0 ≡ some (yaml_for api cfg n))
    unfolding reconcile
    scaled_back_is_stale w w' last n at again e d reads new got listed stored failed =
        rw (got, new, listed, stored, failed)
          (λ same back.
            rw (back, eq_ℤ-self last)
              (
                refl,
                ap (lookup partitions_key) (
                      reads w'
                      ∙ same
                      ∙ patch-config
                          (api.update (api.get_data (api.get_replicas w).1).1
                            (insert partitions_key (yaml_for api cfg n) (data_or_empty d))).1
                          (restart_patch at))
                    ∙ update-entry (api.get_data (api.get_replicas w).1).1 n d stored,
              ))
