-- ===== src/Process/Heaps.antt =====
-- What code of process/ does to the clients' records and their map: a triple says that a run that
-- ends well, from where `P` holds, gives a result and ends where `Q` holds.
use mqtt_server_go.Prelude.{
  ℕ, ◌≡◌, refl, List, [], ◌∷◌, Bytes, Bool, true, false, Map, get_elem?, set, Outcome, ok, panic,
  stuck, ◌>>=◌ as and_then, or_panic, Option, none, some, bytes_beq, if◌then◌else◌,
}
use mqtt_server_go.Process.Server.{
  MqttClientInfo, Server, Effect, M, ◌>>=◌, pure, lift, load, store, emit, find_client, if_found,
}
use mqtt_server_go.Process.PacketId.{general_unique_packet_id}
use mqtt_server_go.Process.Deliver.{for_topics, for_clients, fresh_id}

abbrev pub Heap : Type 0
Heap = List MqttClientInfo

-- What is said of the records and of the map.
abbrev pub Pred : Type 1
Pred = Heap → Map Bytes ℕ → Type 0

-- A run that panics or gets stuck leaves no heap to speak of.
abbrev pub Leaves : {A : Type 0} → (A → Pred) → Outcome (A × Server) → Type 0
Leaves Q (ok (a, s)) = Q a s.heap s.clients
Leaves Q panic = Unit {0}
Leaves Q stuck = Unit {0}

pub record Triple {A : Type 0} (P : Pred) (m : M A) (Q : A → Pred) : Type 0 where
  pub at : (s : Server) → P s.heap s.clients → Leaves Q (m s)

-- `m` keeps `P`.
abbrev pub Keeps : {A : Type 0} → (Pred) → M A → Type 0
Keeps P m = Triple P m (λ r. P)

module _ {A : Type 0} where
  Leaves-bind :
      {B : Type 0} (Q : A → Pred) (R : B → Pred) (o : Outcome (A × Server)) (f : A → M B)
      → Leaves Q o
      → ((a : A) (s : Server) → Q a s.heap s.clients → Leaves R (f a s))
      → Leaves R (and_then o (λ r. f r.0 r.1))
  Leaves-bind Q R (ok (a, s)) f h k = k a s h
  Leaves-bind Q R panic f h k = tt
  Leaves-bind Q R stuck f h k = tt

  pub Triple-bind :
      {B : Type 0} {P : Pred} {Q : A → Pred} {R : B → Pred} (m : M A) (f : A → M B)
      → Triple P m Q
      → ((a : A) → Triple (Q a) (f a) R)
      → Triple P (m >>= f) R
  Triple-bind {Q} {R} m f hm hf = record {
    at = λ s h. Leaves-bind Q R (m s) f (hm.at s h) (λ a s' q. (hf a).at s' q);
  }

  pub Triple-pure :
      {P : Pred} {Q : A → Pred} (a : A)
      → ((h : Heap) (m : Map Bytes ℕ) → P h m → Q a h m)
      → Triple P (pure a) Q
  Triple-pure a k = record { at = λ s h. k s.heap s.clients h }

  pub Keeps-pure : {P : Pred} (a : A) → Keeps P (pure a)
  Keeps-pure a = record { at = λ s h. h }

  Leaves-lift :
      (P : Pred) (o : Outcome A) (s : Server)
      → P s.heap s.clients
      → Leaves (λ (r : A). P) (lift o s)
  Leaves-lift P (ok a) s h = h
  Leaves-lift P panic s h = tt
  Leaves-lift P stuck s h = tt

  pub Keeps-lift : {P : Pred} (o : Outcome A) → Keeps P (lift o)
  Keeps-lift {P} o = record { at = λ s h. Leaves-lift P o s h }

  pub Triple-if :
      {P : Pred} {Q : A → Pred} (b : Bool) (m n : M A)
      → (b ≡ true → Triple P m Q)
      → (b ≡ false → Triple P n Q)
      → Triple P (if b then m else n) Q
  Triple-if true m n hm hn = hm refl
  Triple-if false m n hm hn = hn refl

module _ {P : Pred} where
  pub Triple-load : (a : ℕ) → Triple P (load a) (λ c h m. P h m × (get_elem? h a ≡ some c))
  unfolding load
  Triple-load a = record { at = λ s h. there s (get_elem? s.heap a) refl h }
    where
      there :
          (s : Server) (o : Option MqttClientInfo)
          → get_elem? s.heap a ≡ o
          → P s.heap s.clients
          → Leaves
              (λ c h m. P h m × (get_elem? h a ≡ some c))
              (and_then (or_panic o) (λ c. ok (c, s)))
      there s none e h = tt
      there s (some c) e h = (h, e)

  pub Keeps-load : (a : ℕ) → Keeps P (load a)
  unfolding load
  Keeps-load a = record { at = λ s h. there s (get_elem? s.heap a) h }
    where
      there :
          (s : Server) (o : Option MqttClientInfo)
          → P s.heap s.clients
          → Leaves (λ (c : MqttClientInfo). P) (and_then (or_panic o) (λ c. ok (c, s)))
      there s none h = tt
      there s (some c) h = h

  pub Triple-store :
      {Q : Pred} (a : ℕ) (c : MqttClientInfo)
      → ((h : Heap) (m : Map Bytes ℕ) → P h m → Q (set h a c) m)
      → Triple P (store a c) (λ r. Q)
  unfolding store
  Triple-store a c k = record { at = λ s h. k s.heap s.clients h }

  pub Keeps-emit : (e : Effect) → Keeps P (emit e)
  unfolding emit
  Keeps-emit e = record { at = λ s h. h }

  pub Keeps-fresh_id :
      (rand : ℕ → ℕ) (fuel : ℕ) (status : Map ℕ ℕ) → Keeps P (fresh_id rand fuel status)
  unfolding fresh_id
  Keeps-fresh_id rand fuel status = record {
    at = λ s h. drew s (general_unique_packet_id rand fuel status s.drawn) h;
  }
    where
      drew :
          (s : Server) (o : Outcome (ℕ × ℕ))
          → P s.heap s.clients
          → Leaves (λ (r : ℕ). P) (and_then o (λ r. ok (r.0, record s { drawn = r.1 })))
      drew s (ok r) h = h
      drew s panic h = tt
      drew s stuck h = tt

  pub Keeps-for_topics :
      {S : Type 0} (body : S → M S) (topic : Bytes) (entries : Map Bytes ℕ) (st : S)
      → ((st : S) → Keeps P (body st))
      → Keeps P (for_topics body topic entries st)
  unfolding for_topics
  Keeps-for_topics body topic [] st k = Keeps-pure st
  Keeps-for_topics body topic ((t, q) ∷ entries) st k =
      Triple-bind _ _ (Triple-if (bytes_beq t topic) _ _ (λ _. k st) (λ _. Keeps-pure st))
        (λ st'. Keeps-for_topics body topic entries st' k)

  pub Keeps-for_clients :
      {S : Type 0} (body : ℕ → S → M S) (visit : List ℕ) (st : S)
      → ((a : ℕ) (st : S) → Keeps P (body a st))
      → Keeps P (for_clients body visit st)
  unfolding for_clients
  Keeps-for_clients body [] st k = Keeps-pure st
  Keeps-for_clients body (a ∷ visit) st k =
      Triple-bind _ _ (k a st) (λ st'. Keeps-for_clients body visit st' k)

-- A loop over the clients, for what holds before and after each of its rounds
pub Triple-for_clients :
    {S : Type 0} (I : S → Pred) (body : ℕ → S → M S) (visit : List ℕ) (st : S)
    → ((a : ℕ) (st : S) → Triple (I st) (body a st) I)
    → Triple (I st) (for_clients body visit st) I
unfolding for_clients
Triple-for_clients I body [] st k = Triple-pure st (λ h m i. i)
Triple-for_clients I body (a ∷ visit) st k =
    Triple-bind _ _ (k a st) (λ st'. Triple-for_clients I body visit st' k)

pub Triple-for_topics :
    {S : Type 0} (I : S → Pred) (body : S → M S) (topic : Bytes) (entries : Map Bytes ℕ) (st : S)
    → ((st : S) → Triple (I st) (body st) I)
    → Triple (I st) (for_topics body topic entries st) I
unfolding for_topics
Triple-for_topics I body topic [] st k = Triple-pure st (λ h m i. i)
Triple-for_topics I body topic ((t, q) ∷ entries) st k =
    Triple-bind _ _
      (Triple-if (bytes_beq t topic) _ _ (λ _. k st) (λ _. Triple-pure st (λ h m i. i)))
      (λ st'. Triple-for_topics I body topic entries st' k)

module _ {A : Type 0} {P : Pred} {Q : A → Pred} where
  pub Triple-pre :
      {R : Pred} {m : M A}
      → ((h : Heap) (clients : Map Bytes ℕ) → P h clients → R h clients)
      → Triple R m Q
      → Triple P m Q
  Triple-pre k t = record { at = λ s h. t.at s (k s.heap s.clients h) }

  -- A fact that is not about the heap
  pub Triple-fact :
      {F : Type 0} {m : M A} → (F → Triple P m Q) → Triple (λ h clients. P h clients × F) m Q
  Triple-fact k = record { at = λ s (h, f). (k f).at s h }

-- What a computation gives that does not touch the shared state
pub Triple-lift :
    {A : Type 0} {P : Pred} (o : Outcome A) → Triple P (lift o) (λ a h m. P h m × (o ≡ ok a))
Triple-lift {A} {P} o = record { at = λ s h. ended s o refl h }
  where
    ended :
        (s : Server) (o' : Outcome A)
        → o ≡ o'
        → P s.heap s.clients
        → Leaves (λ a h m. P h m × (o ≡ ok a)) (lift o' s)
    ended s (ok a) e h = (h, e)
    ended s panic e h = tt
    ended s stuck e h = tt

-- A lookup in the map, and the code for either case
pub Keeps-find_client : {P : Pred} (id : Bytes) → Keeps P (find_client id)
unfolding find_client
Keeps-find_client id = record { at = λ s h. h }

pub Keeps-if_found :
    {A : Type 0} {P : Pred} (o : Option ℕ) (missing : M A) (found : ℕ → M A)
    → Keeps P missing
    → ((a : ℕ) → Keeps P (found a))
    → Keeps P (if_found o missing found)
Keeps-if_found none missing found k f = k
Keeps-if_found (some a) missing found k f = f a

pub Keeps-panic : {A : Type 0} {P : Pred} → Keeps {A = A} P (λ s. panic)
Keeps-panic = record { at = λ s h. tt }
