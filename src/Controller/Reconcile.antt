-- ===== src/Controller/Reconcile.antt =====
-- reconcile of cmd/partition-controller/main.go. The Kubernetes API and the clock's text are
-- parameters. Of a ConfigMap only its data is modelled, of a StatefulSet its replica count.
use my_queue.Base.{
  ◌≡◌, refl, ap, ◌∙◌, ◌⊎◌, inl, inr, Bool, ◌&&◌, Option, none, some, [], ◌++◌, ℤ, pos, leb_ℤ, Str,
  bytes, Result, ok, err, Assoc, lookup, insert, if◌then◌else◌, Bool-cases, lookup-insert_self,
}
use my_queue.Controller.Ranges.{compute_partitions_yaml}

pub record Api : Type 1 where
  pub World : Type 0
  -- Spec.Replicas of the StatefulSet, an int32, which may be nil.
  pub get_replicas : World → Result (Option ℤ) × World
  -- Data of the ConfigMap, which may be nil.
  pub get_data : World → Result (Option (Assoc Str)) × World
  pub update : World → Assoc Str → Result (Unit {0}) × World
  pub patch : World → Str → Result (Unit {0}) × World

-- What reconcile reads of its receiver; `restarted_at` is the time that it formats.
pub record Config : Type 0 where
  pub ss_name : Str
  pub total_partitions : ℤ

abbrev pub replicas_or_one : Option ℤ → ℤ
replicas_or_one none = pos 1
replicas_or_one (some n) = n

abbrev pub partitions_key : Str
partitions_key = bytes "partitions.yaml"

abbrev pub data_or_empty : Option (Assoc Str) → Assoc Str
data_or_empty none = []
data_or_empty (some entries) = entries

abbrev pub eq_ℤ : ℤ → ℤ → Bool
eq_ℤ a b = leb_ℤ a b && leb_ℤ b a

pub restart_patch : Str → Str
restart_patch restarted_at =
    bytes "{\"spec\":{\"template\":{\"metadata\":{\"annotations\":{\"prompted.io/restartedAt\":\""
    ++ (restarted_at ++ bytes "\"}}}}}")

module _ (api : Api) (cfg : Config) where
  -- What the ConfigMap is to say for a number of replicas.
  abbrev pub yaml_for : ℤ → Str
  yaml_for replicas = compute_partitions_yaml cfg.ss_name replicas cfg.total_partitions

  -- Each step gives the new world and the new lastReplicas.
  abbrev pub patched : api.World → ℤ → ℤ → Result (Unit {0}) → api.World × ℤ
  patched w last replicas (err e) = (w, last)
  patched w last replicas (ok u) = (w, replicas)

  abbrev pub updated : api.World → ℤ → ℤ → Str → Result (Unit {0}) → api.World × ℤ
  updated w last replicas restarted_at (err e) = (w, last)
  updated w last replicas restarted_at (ok u) =
      let (r, w') = api.patch w (restart_patch restarted_at) in patched w' last replicas r

  abbrev pub with_data : api.World → ℤ → ℤ → Str → Result (Option (Assoc Str)) → api.World × ℤ
  with_data w last replicas restarted_at (err e) = (w, last)
  with_data w last replicas restarted_at (ok entries) =
      let (r, w') =
        api.update w (insert partitions_key (yaml_for replicas) (data_or_empty entries)) in
      updated w' last replicas restarted_at r

  abbrev pub changed : api.World → ℤ → ℤ → Str → api.World × ℤ
  changed w last replicas restarted_at =
      let (r, w') = api.get_data w in with_data w' last replicas restarted_at r

  abbrev pub with_replicas : api.World → ℤ → Str → Result (Option ℤ) → api.World × ℤ
  with_replicas w last restarted_at (err e) = (w, last)
  with_replicas w last restarted_at (ok n) =
      if eq_ℤ (replicas_or_one n) last
      then (w, last)
      else changed w last (replicas_or_one n) restarted_at

  unfoldable pub reconcile : api.World → ℤ → Str → api.World × ℤ
  reconcile w last restarted_at =
      let (r, w') = api.get_replicas w in with_replicas w' last restarted_at r

  -- What the API documents: a successful update stores the data, and a patch of the StatefulSet
  -- leaves the ConfigMap alone.
  pub record ApiLaws : Type 0 where
    pub config : api.World → Assoc Str
    pub update-ok :
        (w : api.World) (entries : Assoc Str) (u : Unit {0})
        → (api.update w entries).0 ≡ ok u
        → config (api.update w entries).1 ≡ entries
    pub patch-config : (w : api.World) (text : Str) → config (api.patch w text).1 ≡ config w

module _ (api : Api) (cfg : Config) (laws : ApiLaws api cfg) where
  open laws use {config, update-ok, patch-config}

  -- The count that is remembered is the old one, or what the ConfigMap says.
  abbrev pub IsPublished : ℤ → api.World × ℤ → Type 0
  IsPublished last t =
      (t.1 ≡ last) ⊎ (lookup partitions_key (config t.0) ≡ some (yaml_for api cfg t.1))

  updated-IsPublished :
      (w : api.World) (last replicas : ℤ) (at : Str) (r : Result (Unit {0}))
      → ((u : Unit {0})
          → r ≡ ok u
          → lookup partitions_key (config w) ≡ some (yaml_for api cfg replicas))
      → IsPublished last (updated api cfg w last replicas at r)
  updated-IsPublished w last replicas at (err e) h = inl refl
  updated-IsPublished w last replicas at (ok u) h = outcome (api.patch w (restart_patch at)).0
    where
      outcome :
          (r : Result (Unit {0}))
          → IsPublished last (patched api cfg (api.patch w (restart_patch at)).1 last replicas r)
      outcome (err e) = inl refl
      outcome (ok u) =
          inr (ap (lookup partitions_key) (patch-config w (restart_patch at)) ∙ h u refl)

  with_data-IsPublished :
      (w : api.World) (last replicas : ℤ) (at : Str) (r : Result (Option (Assoc Str)))
      → IsPublished last (with_data api cfg w last replicas at r)
  with_data-IsPublished w last replicas at (err e) = inl refl
  with_data-IsPublished w last replicas at (ok entries) =
      updated-IsPublished (api.update w new).1 last replicas at (api.update w new).0 (λ u e.
        ap (lookup partitions_key) (update-ok w new u e)
        ∙ lookup-insert_self partitions_key _ (data_or_empty entries))
    where
      new : Assoc Str
      new = insert partitions_key (yaml_for api cfg replicas) (data_or_empty entries)

  -- After reconcile, whichever of its calls failed, it remembers the replica count that it
  -- remembered before, or one for which the ConfigMap holds the division of the partitions: a failed
  -- attempt is never remembered as done.
  pub reconcile-IsPublished :
      (w : api.World) (last : ℤ) (restarted_at : Str)
      → IsPublished last (reconcile api cfg w last restarted_at)
  unfolding reconcile
  reconcile-IsPublished w last at = read (api.get_replicas w).0
    where
      w' : api.World
      w' = (api.get_replicas w).1

      read : (r : Result (Option ℤ)) → IsPublished last (with_replicas api cfg w' last at r)
      read (err e) = inl refl
      read (ok n) = elim (Bool-cases (eq_ℤ (replicas_or_one n) last)) [
        | inl same ↦ rw same (inl refl)
        | inr new ↦ rw new (
            with_data-IsPublished (api.get_data w').1 last (replicas_or_one n) at
              (api.get_data w').0)
      ]
