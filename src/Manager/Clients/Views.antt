-- ===== src/Manager/Clients/Views.antt =====
-- What the views show of the clients that are visited.
use mathlib.Core.List.{Perm, Permᴰ}
use mathlib.Core.Logic.{∥∥₁_elim}
use native.Mathlib.Nat.{ℕ_set}
use mqtt_server_go.Prelude.{
  ℕ, suc, ◌+◌, ◌%◌, ◌^◌, ◌≤◌, ◌<◌, ◌≡◌, refl, ap, ◌∙◌, arith, List, [], ◌∷◌, ◌++◌, map, append-nil,
  append_assoc, length, get_elem?, take, drop, Bool-cases, inl, inr, some, ok, ◌==◌, if◌then◌else◌,
}
use mqtt_server_go.Process.Server.{MqttClientInfo, Server, load}
use mqtt_server_go.Manager.Window.{in_window, window, window_lem, window_wraps}
use mqtt_server_go.Manager.Clients.{
  ClientInfo, client_info_of, info_loop, get_client_info_list, count_loop, get_on_line_client_num,
}

-- The records at the addresses of a visit are `cs`.
abbrev pub Visits : Server → List ℕ → List MqttClientInfo → Type 0
Visits s [] [] = Unit {0}
Visits s [] (c ∷ cs) = ⊥
Visits s (a ∷ visit) [] = ⊥
Visits s (a ∷ visit) (c ∷ cs) = (get_elem? s.heap a ≡ some c) × Visits s visit cs

-- How many of the records are logged in
abbrev online_cons : MqttClientInfo → ℕ → ℕ
online_cons c n = if c.login_success == 1 then suc n else n

abbrev pub online : List MqttClientInfo → ℕ
online [] = 0
online (c ∷ cs) = online_cons c (online cs)

online_swap :
    (c d : MqttClientInfo) (n : ℕ)
    → online_cons c (online_cons d n) ≡ online_cons d (online_cons c n)
online_swap c d n = ground arith

online-Perm : {cs ds : List MqttClientInfo} → Permᴰ cs ds → online cs ≡ online ds
online-Perm Permᴰ.nil = refl
online-Perm (Permᴰ.cons {b} e p) = λ i. online_cons (e i) (online-Perm p i)
online-Perm (Permᴰ.swap {a} {b} {l} e f) =
    online_swap a b (online l) ∙ (λ i. online_cons (f i) (online_cons (e i) (online l)))
online-Perm (Permᴰ.trans p q) = online-Perm p ∙ online-Perm q

online-le : (cs : List MqttClientInfo) → online cs ≤ length cs
online-le [] = omega arith
online-le (c ∷ cs) = ground (arith, online-le cs)

-- What the list shows of a client: the number of its topics is always 0.
abbrev pub shown : MqttClientInfo → ClientInfo
shown c = record {
  client_id = c.client_id;
  username = c.username;
  login_success = c.login_success;
  sub_topic_num = 0;
  offline_num = length c.offline_msg;
}

client_info_of-shown : (cs : List MqttClientInfo) → map (client_info_of 0) cs ≡ map shown cs
unfolding client_info_of
client_info_of-shown [] = refl
client_info_of-shown (c ∷ cs) = ap (λ (r : List ClientInfo). shown c ∷ r) (client_info_of-shown cs)

module _ (s : Server) where
  info_loop_lem :
      (start limit : ℕ) (visit : List ℕ) (cs : List MqttClientInfo) (index : ℕ)
      (infos : List ClientInfo)
      → Visits s visit cs
      → info_loop start limit visit index infos s
        ≡ ok (infos ++ map (client_info_of 0) (window start limit index cs), s)
  unfolding info_loop load
  info_loop_lem start limit [] [] index infos v = rw (append-nil infos) refl
  info_loop_lem start limit [] (c ∷ cs) index infos v = absurd v
  info_loop_lem start limit (a ∷ visit) [] index infos v = absurd v
  info_loop_lem start limit (a ∷ visit) (c ∷ cs) index infos (e, v) =
      rw e (elim (Bool-cases (in_window start limit index)) [
        | inl inside ↦ rw inside (
            info_loop_lem start limit visit cs ((index + 1) % 2 ^ 64) _ v
            ∙ ap (λ (r : List ClientInfo). ok (r, s))
                (append_assoc infos (client_info_of 0 c ∷ []) _))
        | inr out ↦ rw out (info_loop_lem start limit visit cs ((index + 1) % 2 ^ 64) infos v)
      ])

  count_loop_lem :
      (visit : List ℕ) (cs : List MqttClientInfo) (num : ℕ)
      → Visits s visit cs
      → count_loop visit num s ≡ ok (num + online cs, s)
  unfolding count_loop load
  count_loop_lem [] [] num v = ap (λ (n : ℕ). ok (n, s)) (omega arith)
  count_loop_lem [] (c ∷ cs) num v = absurd v
  count_loop_lem (a ∷ visit) [] num v = absurd v
  count_loop_lem (a ∷ visit) (c ∷ cs) num (e, v) = rw e (elim (Bool-cases (c.login_success == 1)) [
    | inl on ↦ rw on (count_loop_lem visit cs (num + 1) v ∙ ap (λ (n : ℕ). ok (n, s)) (omega arith))
    | inr out ↦ rw out (count_loop_lem visit cs num v)
  ])

  -- A page of the list
  pub get_client_info_list_lem :
      (start limit : ℕ) (visit : List ℕ) (cs : List MqttClientInfo)
      → Visits s visit cs
      → length cs < 2 ^ 63
      → start + limit < 2 ^ 63
      → get_client_info_list visit start limit s ≡ ok (map shown (take limit (drop start cs)), s)
  unfolding get_client_info_list
  get_client_info_list_lem start limit visit cs v small fits =
      info_loop_lem start limit visit cs 0 [] v
      ∙ ap (λ (r : List MqttClientInfo). ok (map (client_info_of 0) r, s))
          (window_lem start limit fits cs small)
      ∙ ap (λ (r : List ClientInfo). ok (r, s)) (client_info_of-shown (take limit (drop start cs)))

  pub get_client_info_list_wraps :
      (start limit : ℕ) (visit : List ℕ) (cs : List MqttClientInfo)
      → Visits s visit cs
      → length cs < 2 ^ 63
      → start < 2 ^ 63
      → limit < 2 ^ 63
      → 2 ^ 63 ≤ start + limit
      → get_client_info_list visit start limit s ≡ ok ([], s)
  unfolding get_client_info_list
  get_client_info_list_wraps start limit visit cs v small p q wraps =
      info_loop_lem start limit visit cs 0 [] v
      ∙ ap (λ (r : List MqttClientInfo). ok (map (client_info_of 0) r, s))
          (window_wraps start limit p q wraps 0 cs (omega arith))

  -- For two visits of the same clients, in whatever order: each counts exactly the clients that are
  -- logged in, so both give the same number, and it is at most the number of the clients.
  pub get_on_line_client_num-Perm :
      (visit visit' : List ℕ) (cs cs' : List MqttClientInfo)
      → Visits s visit cs
      → Visits s visit' cs'
      → Perm cs cs'
      → (get_on_line_client_num visit s ≡ ok (online cs, s))
        × (get_on_line_client_num visit' s ≡ ok (online cs, s))
        × (online cs ≤ length cs)
  unfolding get_on_line_client_num
  get_on_line_client_num-Perm visit visit' cs cs' v v' p =
      let same = ∥∥₁_elim p (ℕ_set _ _) online-Perm in
      (
        count_loop_lem visit cs 0 v ∙ ap (λ (n : ℕ). ok (n, s)) (omega arith),
        count_loop_lem visit' cs' 0 v' ∙ ap (λ (n : ℕ). ok (n, s)) (omega (arith, same)),
        online-le cs,
      )
