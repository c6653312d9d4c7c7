-- ===== src/Service/Manager/Running.antt =====
-- service/manager.go: the services that run, and the order in which Close stops them.
use mathlib.Core.List.{reverse, reverse-cons}
use mathlib.Core.Path.{ap₂}
use image_assembler.Base.{
  ℕ, String, Bool, true, false, Option, none, some, List, [], ◌∷◌, ◌++◌, ◌≡◌, refl, ap, sym, subst,
  ◌∙◌, Map, lookup, insert, delete, if◌then◌else◌, keys, str_eq, str_eq_iff, str_eq_refl, arith,
  contains, lookup-insert, lookup-delete,
}
use image_assembler.Base.Result.{Result, ok, err, panic}
use image_assembler.Manifest.OrderedMap.{drop_first}
use image_assembler.Manifest.OrderedMap.Valid.{Nodup, Nodup-append, Nodup-drop_first}
use image_assembler.Service.Manager.{
  Manager, ManagerError, already_started, unknown_service, new_manager, Launch, launch, add_client,
  start, stop, stop_each, close,
}

-- The calls of Start and Stop since NewManager, those that return an error among them: the services
-- that run, in the order in which they were started.
pub data Reached : Manager → Map ℕ → Type 0 where
  fresh : Reached new_manager []
  started :
      (m m' : Manager) (running : Map ℕ) (uid : String) (l : Launch) (c : ℕ)
      → Reached m running
      → start uid l m ≡ (m', ok c)
      → Reached m' (running ++ (uid, c) ∷ [])
  stopped :
      (m m' : Manager) (running : Map ℕ) (uid : String) (c : ℕ)
      → Reached m running
      → stop uid m ≡ (m', ok c)
      → Reached m' (delete uid running)
  start_failed :
      (m m' : Manager) (running : Map ℕ) (uid : String) (l : Launch) (e : ManagerError)
      → Reached m running
      → start uid l m ≡ (m', err e)
      → Reached m' running
  stop_failed :
      (m m' : Manager) (running : Map ℕ) (uid : String) (e : ManagerError)
      → Reached m running
      → stop uid m ≡ (m', err e)
      → Reached m' running

-- The manager represents the list of the running services.
abbrev pub Represents : Manager → Map ℕ → Type 0
Represents m running =
    (m.order ≡ keys running)
    × ((u : String) → lookup u m.services ≡ lookup u running)
    × Nodup (keys running)

abbrev pub clients : Map ℕ → List ℕ
clients [] = []
clients ((uid, c) ∷ running) = c ∷ clients running

abbrev is_there : Option ℕ → Bool
is_there none = false
is_there (some c) = true

contains-keys : (m : Map ℕ) (u : String) → contains (keys m) u ≡ is_there (lookup u m)
unfolding contains keys lookup
contains-keys [] u = refl
contains-keys ((k, c) ∷ m) u = ground (arith, contains-keys m u)

keys-append_last : (m : Map ℕ) (u : String) (c : ℕ) → keys (m ++ (u, c) ∷ []) ≡ keys m ++ u ∷ []
unfolding keys
keys-append_last [] u c = refl
keys-append_last ((k, d) ∷ m) u c = ap (λ x. k ∷ x) (keys-append_last m u c)

lookup-append_last :
    (m : Map ℕ) (u j : String) (c : ℕ)
    → lookup u m ≡ none
    → lookup j (m ++ (u, c) ∷ []) ≡ (if str_eq u j then some c else lookup j m)
unfolding lookup
lookup-append_last [] u j c h = refl
lookup-append_last ((k, d) ∷ m) u j c h =
    ground (arith, lookup-append_last m u j c, str_eq_iff k u, str_eq_iff u j, str_eq_iff k j)

delete-absent : (m : Map ℕ) (u : String) → contains (keys m) u ≡ false → delete u m ≡ m
unfolding contains keys delete
delete-absent [] u h = refl
delete-absent ((k, c) ∷ m) u h = ground (arith, delete-absent m u)

keys-delete : (m : Map ℕ) (u : String) → Nodup (keys m) → drop_first u (keys m) ≡ keys (delete u m)
unfolding contains keys delete drop_first
keys-delete [] u d = refl
keys-delete ((k, c) ∷ m) u d =
    ground (arith, keys-delete m u d.1, delete-absent m u, d.0, str_eq_iff k u)

stop_each-append :
    (services : Map ℕ) (us vs : List String)
    → stop_each services (us ++ vs) ≡ stop_each services us ++ stop_each services vs
unfolding stop_each
stop_each-append services [] vs = refl
stop_each-append services (u ∷ us) vs = ground (arith, stop_each-append services us vs)

stop_each-single :
    (services : Map ℕ) (k : String) (c : ℕ)
    → lookup k services ≡ some c
    → stop_each services (k ∷ []) ≡ c ∷ []
unfolding stop_each
stop_each-single services k c h = rw (stop_each, h) refl

-- Going through the names from the last on stops the clients from the last on.
stop_each-reverse :
    (services m : Map ℕ)
    → Nodup (keys m)
    → ((u : String) → contains (keys m) u ≡ true → lookup u services ≡ lookup u m)
    → stop_each services (reverse (keys m)) ≡ reverse (clients m)
unfolding keys contains lookup stop_each
stop_each-reverse services [] d same = refl
stop_each-reverse services ((k, c) ∷ m) d same =
    ap (stop_each services) (reverse-cons k (keys m))
    ∙ stop_each-append services (reverse (keys m)) (k ∷ [])
    ∙ ap₂ ◌++◌ (stop_each-reverse services m d.1 others) last
    ∙ sym (reverse-cons c (clients m))
  where
    others : (u : String) → contains (keys m) u ≡ true → lookup u services ≡ lookup u m
    others u h = ground (arith, same u, d.0, h, str_eq_iff k u)

    last : stop_each services (k ∷ []) ≡ c ∷ []
    last =
        stop_each-single services k c (same k (rw (str_eq_refl k) refl) ∙ rw (str_eq_refl k) refl)

abbrev with_client : String → ℕ → Manager → Manager
with_client uid c m = record { services = insert uid c m.services; order = m.order ++ uid ∷ [] }

abbrev without : String → Manager → Manager
without uid m = record { services = delete uid m.services; order = drop_first uid m.order }

added :
    (m : Manager) (running : Map ℕ) (uid : String) (c : ℕ)
    → Represents m running
    → lookup uid m.services ≡ none
    → Represents (with_client uid c m) (running ++ (uid, c) ∷ [])
added m running uid c r absent = (
  ap (λ x. x ++ uid ∷ []) r.0 ∙ sym (keys-append_last running uid c),
  (λ u.
      lookup-insert uid u c m.services
      ∙ ap (λ x. if str_eq uid u then some c else x) (r.1 u)
      ∙ sym (lookup-append_last running uid u c (sym (r.1 uid) ∙ absent))),
  subst Nodup (sym (keys-append_last running uid c)) (
      Nodup-append (keys running) uid r.2
        (contains-keys running uid ∙ ap is_there (sym (r.1 uid) ∙ absent))),
)

removed :
    (m : Manager) (running : Map ℕ) (uid : String)
    → Represents m running
    → Represents (without uid m) (delete uid running)
removed m running uid r = (
  ap (drop_first uid) r.0 ∙ keys-delete running uid r.2,
  (λ u.
      lookup-delete uid u m.services
      ∙ ap (λ x. if str_eq uid u then none else x) (r.1 u)
      ∙ sym (lookup-delete uid u running)),
  subst Nodup (keys-delete running uid r.2) (Nodup-drop_first (keys running) uid r.2),
)

same_client : {c d : ℕ} → ◌≡◌ {A = Result {0, 0} ManagerError ℕ} (ok c) (ok d) → c ≡ d
same_client h = cc

start-Represents :
    (m m' : Manager) (running : Map ℕ) (uid : String) (l : Launch) (c : ℕ)
    → Represents m running
    → start uid l m ≡ (m', ok c)
    → Represents m' (running ++ (uid, c) ∷ [])
unfolding start
start-Represents m m' running uid l c r h = by_lookup (lookup uid m.services) refl h
  where
    Goal : Manager × Result {0, 0} ManagerError ℕ → Type 0
    Goal x = x ≡ (m', ok c)

    by_launch :
        (x : Result {0, 0} ManagerError ℕ)
        → lookup uid m.services ≡ none
        → Goal (add_client uid m x)
        → Represents m' (running ++ (uid, c) ∷ [])
    by_launch (ok d) absent e =
        subst (λ x. Represents x (running ++ (uid, c) ∷ [])) (ap (λ x. x.0) e)
          (subst (λ x. Represents (with_client uid x m) (running ++ (uid, c) ∷ []))
            (sym (same_client {c = d} {d = c} (ap (λ x. x.1) e))) (added m running uid c r absent))
    by_launch (err x) absent e = cc
    by_launch panic absent e = cc

    by_lookup :
        (x : Option ℕ)
        → lookup uid m.services ≡ x
        → Goal (elim x as (λ y. Manager × Result {0, 0} ManagerError ℕ) [
          | some d ↦ (m, err already_started)
          | none ↦ add_client uid m (launch l).0
        ])
        → Represents m' (running ++ (uid, c) ∷ [])
    by_lookup (some d) there e = cc
    by_lookup none there e = by_launch (launch l).0 there e

stop-Represents :
    (m m' : Manager) (running : Map ℕ) (uid : String) (c : ℕ)
    → Represents m running
    → stop uid m ≡ (m', ok c)
    → Represents m' (delete uid running)
unfolding stop
stop-Represents m m' running uid c r h = by_lookup (lookup uid m.services) h
  where
    Goal : Manager × Result {0, 0} ManagerError ℕ → Type 0
    Goal x = x ≡ (m', ok c)

    by_lookup :
        (x : Option ℕ)
        → Goal (elim x as (λ y. Manager × Result {0, 0} ManagerError ℕ) [
          | none ↦ (m, err unknown_service)
          | some d ↦ (without uid m, ok d)
        ])
        → Represents m' (delete uid running)
    by_lookup none e = cc
    by_lookup (some d) e =
        subst (λ x. Represents x (delete uid running)) (ap (λ x. x.0) e) (removed m running uid r)

-- A Start that fails leaves the manager as it was.
start-unchanged :
    (m m' : Manager) (uid : String) (l : Launch) (x : ManagerError)
    → start uid l m ≡ (m', err x)
    → m ≡ m'
unfolding start
start-unchanged m m' uid l x h = by_lookup (lookup uid m.services) h
  where
    Goal : Manager × Result {0, 0} ManagerError ℕ → Type 0
    Goal r = r ≡ (m', err x)

    by_launch : (r : Result {0, 0} ManagerError ℕ) → Goal (add_client uid m r) → m ≡ m'
    by_launch (ok d) e = cc
    by_launch (err y) e = ap (λ r. r.0) e
    by_launch panic e = ap (λ r. r.0) e

    by_lookup :
        (o : Option ℕ)
        → Goal (elim o as (λ y. Manager × Result {0, 0} ManagerError ℕ) [
          | some d ↦ (m, err already_started)
          | none ↦ add_client uid m (launch l).0
        ])
        → m ≡ m'
    by_lookup (some d) e = ap (λ r. r.0) e
    by_lookup none e = by_launch (launch l).0 e

-- So does a Stop.
stop-unchanged :
    (m m' : Manager) (uid : String) (x : ManagerError) → stop uid m ≡ (m', err x) → m ≡ m'
unfolding stop
stop-unchanged m m' uid x h = by_lookup (lookup uid m.services) h
  where
    Goal : Manager × Result {0, 0} ManagerError ℕ → Type 0
    Goal r = r ≡ (m', err x)

    by_lookup :
        (o : Option ℕ)
        → Goal (elim o as (λ y. Manager × Result {0, 0} ManagerError ℕ) [
          | none ↦ (m, err unknown_service)
          | some d ↦ (without uid m, ok d)
        ])
        → m ≡ m'
    by_lookup none e = ap (λ r. r.0) e
    by_lookup (some d) e = cc

Reached-Represents : (m : Manager) (running : Map ℕ) → Reached m running → Represents m running
unfolding keys
Reached-Represents m running fresh = (refl, λ u. refl, tt)
Reached-Represents m running (started m0 m' running0 uid l c r h) =
    start-Represents m0 m running0 uid l c (Reached-Represents m0 running0 r) h
Reached-Represents m running (stopped m0 m' running0 uid c r h) =
    stop-Represents m0 m running0 uid c (Reached-Represents m0 running0 r) h
Reached-Represents m running (start_failed m0 m' running0 uid l e r h) =
    subst (λ x. Represents x running) (start-unchanged m0 m uid l e h)
      (Reached-Represents m0 running r)
Reached-Represents m running (stop_failed m0 m' running0 uid e r h) =
    subst (λ x. Represents x running) (stop-unchanged m0 m uid e h)
      (Reached-Represents m0 running r)

-- However a manager was used since it was made, by calls of Start and Stop one after the other, those
-- that return an error among them, its names are those of the running services in the order of their
-- start, each leads to its client, and Close stops exactly the running clients, the one started last
-- first, and leaves a manager without services.
pub close-reverses :
    (m : Manager) (running : Map ℕ)
    → Reached m running
    → Represents m running × (close m ≡ (new_manager, reverse (clients running)))
unfolding close
close-reverses m running h =
    let r = Reached-Represents m running h in
    (
      r,
      ap (λ x. (new_manager, x))
          (ap (λ x. stop_each m.services (reverse x)) r.0
            ∙ stop_each-reverse m.services running r.2 (λ u there. r.1 u)),
    )
