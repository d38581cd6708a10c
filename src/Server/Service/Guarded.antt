-- ===== src/Server/Service/Guarded.antt =====
-- What requests without the service's token can do to the queue service of sonya/src/main.rs.
use web_queue.Common.{
  ℕ, Bytes, Option, some, List, [], ◌∷◌, true, false, Result, ok, ◌≡◌, refl, arith, Option-cases,
  inl, inr,
}
use web_queue.Message.Interface.{IsUniqId}
use web_queue.Message.{UniqId}
use web_queue.Sled.{IsReliable}
use web_queue.Api.{Secure, Web, service_token_guard}
use web_queue.Api.Routes.{
  Handler, subscribe_queue_by_id_longpoll, subscribe_queue_by_id_ws, Router, IsGuarded,
  queue_scope_factory, proxy_routes,
}
use web_queue.Api.Routes.Guards.{listens_by_id, guard_of, proxy_routes-guards}
use web_queue.Queue.State.{Runtime, Queue}
use web_queue.Queue.Abstract.{Store}
use web_queue.Queue.Abstract.Represents.{Represents}
use web_queue.Server.Service.{Extractors, serve_all}
use web_queue.Server.Service.Access.{table, table_lem}
use web_queue.Server.Service.Specified.{specified, specified_routed, specified_all}
use web_queue.Server.Service.Served.{NoneDefault, serve_all-specified}

module _ {R HeaderValue T : Type 0} (x : Extractors R HeaderValue T) (web : Web HeaderValue)
    (st : Secure) where
  -- No request carries the service's token.
  abbrev pub WithoutServiceToken : List R → Type 0
  WithoutServiceToken [] = Unit
  WithoutServiceToken (r ∷ rs) =
      (service_token_guard web st (x.request r).head ≡ false) × WithoutServiceToken rs

  module _ (time_after : ℕ → Option (Result Bytes ℕ)) (uniq : UniqId T) where
    listener_only_reads :
        (h : Handler) (r : R) (s : Store T)
        → listens_by_id h ≡ true
        → (specified x web time_after (some st) uniq h r s).1 ≡ s
    unfolding specified listens_by_id
    listener_only_reads subscribe_queue_by_id_longpoll r s e = refl
    listener_only_reads subscribe_queue_by_id_ws r s e = refl
    listener_only_reads _ r s e = absurd (ground arith)

    listens_without :
        (h : Handler) (r : R)
        → service_token_guard web st (x.request r).head ≡ false
        → guard_of web st h (x.request r).head ≡ true
        → listens_by_id h ≡ true
    unfolding guard_of
    listens_without h r e g = ground (arith, e, g)

    routed_only_reads :
        (router : Router HeaderValue) (law : IsGuarded router) (r : R) (s : Store T)
        → service_token_guard web st (x.request r).head ≡ false
        → (specified_routed x web time_after
            (some st)
            uniq
            (router.dispatch (table web (some st)) (x.request r))
            r
            s).1
          ≡ s
    unfolding specified_routed proxy_routes
    routed_only_reads router law r s without =
        elim (Option-cases (router.dispatch (table web (some st)) (x.request r))) [
          | inl e ↦ rw e refl
          | inr (h, e) ↦
              let called : router.dispatch (queue_scope_factory web (some st)) (x.request r)
                  ≡ some h =
                rw (table_lem web (some st)) e in
              let (guarded, _) =
                proxy_routes-guards web st router false (x.request r) h law called in
              rw e (listener_only_reads h r s (listens_without h r without guarded))
        ]

    all_only_read :
        (router : Router HeaderValue) (law : IsGuarded router) (rs : List R) (s : Store T)
        → WithoutServiceToken rs
        → (specified_all x web time_after (some st) uniq router rs s).1 ≡ s
    unfolding specified_all
    all_only_read router law [] s without = refl
    all_only_read router law (r ∷ rs) s (without, rest) =
        rw (routed_only_reads router law r s without) (all_only_read router law rs s rest)

  module _ (time_after : ℕ → Option (Result Bytes ℕ))
      {Db DbError JsonError Sender Receiver : Type 0}
      (rt : Runtime Db DbError JsonError Sender Receiver T) (laws : IsReliable rt.sled)
      (u : IsUniqId rt.uniq) (encode : T → Bytes)
      (encodes : (m : T) → rt.json.to_vec m ≡ ok (encode m))
      (decodes : (m : T) → rt.json.from_slice (encode m) ≡ ok m) where
    -- On a service with tokens configured, behind a router that respects the guards, requests that
    -- do not carry the service's token, however many and whatever they are, change nothing that is
    -- stored: the queue stands for the same store before and after them; given that storage does not
    -- fail, messages are read back as written, and no request names the default tree.
    pub serve_all-unauthorized :
        (router : Router HeaderValue)
        → IsGuarded router
        → (rs : List R) (q : Queue Db Sender) (s : Store T) → NoneDefault x rt.sled.default_tree rs
        → WithoutServiceToken rs
        → Represents rt laws encode q s
        → Represents rt laws encode (serve_all x web time_after (some st) rt router rs q).1 s
    serve_all-unauthorized router law rs q s none_default without rep =
        rw (← all_only_read time_after rt.uniq router law rs s without) (
          (serve_all-specified x web time_after (some st) rt laws u encode encodes decodes router rs
            q s none_default rep).1)
