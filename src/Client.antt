-- ===== src/Client.antt =====
-- The Kubernetes API as the program calls it (sigs.k8s.io/controller-runtime/pkg/client), which is
-- not of this repository: operations over an abstract state `S` of the cluster, given for each
-- kind of object as a record. The state also holds whatever else an outside call may change.
use multi_cluster_traffic_co.Prelude.{
  String, Option, none, some, ◌≡◌, ◌≢◌, Exec, ok, err, is_not_found, true, Error,
}
use multi_cluster_traffic_co.Api.Types.{ObjectMeta, NamespacedName, object_key}

-- `rest.Config`, with the fields that the program sets and those of its `TLSClientConfig`.
pub record RestConfig : Type 0 where
  pub host : String
  pub username : String
  pub password : String
  pub bearer_token : String
  pub server_name : String
  pub cert_data : String
  pub key_data : String
  pub ca_data : String

-- A call that writes gives back the object as the server returns it.
pub record ObjectClient (S Obj : Type 0) : Type 0 where
  pub get : NamespacedName → Exec S Obj
  pub create : Obj → Exec S Obj
  pub update : Obj → Exec S Obj
  pub update_status : Obj → Exec S Obj
  pub delete : Obj → Exec S (Unit {0})

-- What the program relies on: `view` is what the server stores under a key.
pub record ClientLaws {S Obj : Type 0} (meta : Obj → ObjectMeta) (client : ObjectClient S Obj)
    (view : S → NamespacedName → Option Obj) : Type 0 where
  -- Get returns what is stored, or an error of the kind NotFound, and changes nothing.
  pub get_found :
      (k : NamespacedName) (s : S) (o : Obj) → view s k ≡ some o → client.get k s ≡ (ok o, s)
  pub get_missing :
      (k : NamespacedName) (s : S)
      → view s k ≡ none
      → (e : Error) × (client.get k s ≡ (err e, s)) × (is_not_found e ≡ true)
  -- What is stored under a key is named by it.
  pub view_key :
      (s : S) (k : NamespacedName) (o : Obj) → view s k ≡ some o → object_key (meta o) ≡ k
  -- What Create and Update return is what is stored from then on.
  pub create_stored :
      (o o' : Obj) (s s' : S)
      → client.create o s ≡ (ok o', s')
      → view s' (object_key (meta o)) ≡ some o'
  pub update_stored :
      (o o' : Obj) (s s' : S)
      → client.update o s ≡ (ok o', s')
      → view s' (object_key (meta o)) ≡ some o'
  -- Update and Delete leave the other keys alone.
  pub update_other :
      (o : Obj) (s : S) (k : NamespacedName)
      → k ≢ object_key (meta o)
      → view (client.update o s).1 k ≡ view s k
  pub delete_other :
      (o : Obj) (s : S) (k : NamespacedName)
      → k ≢ object_key (meta o)
      → view (client.delete o s).1 k ≡ view s k
