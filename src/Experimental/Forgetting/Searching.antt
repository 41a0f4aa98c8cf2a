-- ===== src/Experimental/Forgetting/Searching.antt =====
-- redis_get_socket and redis_release_socket of the two pools.
use hiredispool.Base.{
  ℕ, zero, suc, ◌≡◌, eq_cases, inl, inr, ◌∙◌, refl, sym, ap, true, false, Bool-cases, Option, none,
  some, Option-cases, get_elem?, length, ltb_ℤ, is_zero,
}
use hiredispool.Instance.{SockState, sockunconnected, sockconnected, SockState-cases, Instance}
use hiredispool.Instance
use hiredispool.Acquire
use hiredispool.Acquire.{Visit, taken, skipped, found, nothing, stuck}
use hiredispool.Acquire.Steps
use hiredispool.Acquire.Results
use hiredispool.Acquire.Release
use hiredispool.Experimental.{ErrSocket, ErrInstance, Hiredis, next_of, with_sock}
use hiredispool.Experimental.Acquire.{
  following, start_from, reconnect, grab, visit, scan, redis_get_socket, redis_release_socket,
}
use hiredispool.Experimental.Acquire.Steps.{
  reconnect_up, reconnect_early, reconnect_due, grab_up, grab_down, visit_busy, visit_in_use,
  visit_free, scan_taken, scan_end, scan_on, scan_lost, get_null, get_scan, release_at,
  release_lost,
}
use hiredispool.Experimental.Forgetting.{
  forget, forget_visit, forget_search, forget_two, connect-forget, get_elem?-forget_some,
  get_elem?-forget_none, forget-store, next_of-forget, following-forget, start_of-forget,
  length-forget,
}

module _ {W : Type 0} (t : Hiredis W) where
  reconnect-forget :
      (s : ErrInstance) (y : ErrSocket) (w : W)
      → forget_two (reconnect t s y w) ≡ Acquire.reconnect t.platform (forget s) y.sock w
  reconnect-forget s y w =
      let p = t.platform in
      let u = forget s in
      elim (SockState-cases y.sock.state) [
        | inr e ↦ ap forget_two (reconnect_up t s y w e) ∙ sym (Steps.reconnect_up p u y.sock w e)
        | inl e ↦ elim (Bool-cases (ltb_ℤ s.connect_after (p.time w).0)) [
          | inr f ↦
              ap forget_two (reconnect_early t s y w e f)
              ∙ sym (Steps.reconnect_early p u y.sock w e f)
          | inl f ↦
              ap forget_two (reconnect_due t s y w e f)
              ∙ ap
                  (λ r.
                    let u1 : Instance = record u { connect_after = r.connect_after } in
                    (u1, r.sock, r.world))
                  (connect-forget t s.config s.connect_after y (p.time w).1)
              ∙ sym (Steps.reconnect_due p u y.sock w e f)
        ]
      ]

  grab-forget :
      (cur : ℕ) (s : ErrInstance) (y : ErrSocket) (w : W)
      → forget_visit (grab t cur (s, y, w)) ≡ Acquire.grab t.platform cur (forget s, y.sock, w)
  grab-forget cur s y w =
      let p = t.platform in
      elim (SockState-cases y.sock.state) [
        | inl e ↦
            ap forget_visit (grab_down t s cur y w e)
            ∙ ap (λ u. skipped u (p.mutex_unlock y.sock.id w).1)
                (forget-store s cur (with_sock y (record y.sock { inuse = false })))
            ∙ sym (Steps.grab_down p (forget s) cur (forget s) y.sock w e)
        | inr e ↦
            ap forget_visit (grab_up t s cur y w e)
            ∙ ap (λ u. taken (record u { last_used = next_of s cur }) w) (forget-store s cur y)
            ∙ ap (λ o. taken (record (Instance.store (forget s) cur y.sock) { last_used = o }) w)
                (sym (next_of-forget s cur))
            ∙ sym (Steps.grab_up p (forget s) cur (forget s) y.sock w e)
      ]

  visit-forget :
      (s : ErrInstance) (cur : ℕ) (y : ErrSocket) (w : W)
      → forget_visit (visit t s cur y w) ≡ Acquire.visit t.platform (forget s) cur y.sock w
  visit-forget s cur y w =
      let p = t.platform in
      let (rc, w1) = p.mutex_trylock y.sock.id w in
      elim (Bool-cases (is_zero rc)) [
        | inr a ↦
            ap forget_visit (visit_busy t s cur y w a)
            ∙ sym (Steps.visit_busy p (forget s) cur y.sock w a)
        | inl a ↦ elim (Bool-cases y.sock.inuse) [
          | inl b ↦
              ap forget_visit (visit_in_use t s cur y w a b)
              ∙ sym (Steps.visit_in_use p (forget s) cur y.sock w a b)
          | inr b ↦
              let z = with_sock y (record y.sock { inuse = true }) in
              let (s1, z1, v) = reconnect t s z w1 in
              ap forget_visit (visit_free t s cur y w a b)
              ∙ grab-forget cur s1 z1 v
              ∙ ap (Acquire.grab p cur) (reconnect-forget s z w1)
              ∙ sym (Steps.visit_free p (forget s) cur y.sock w a b)
        ]
      ]

  scan-forget :
      (n start cur : ℕ) (s : ErrInstance) (w : W)
      → forget_search (scan t n start cur s w) ≡ Acquire.scan t.platform n start cur (forget s) w
  unfolding scan Acquire.scan
  scan-forget zero start cur s w = refl
  scan-forget (suc n) start cur s w =
      let p = t.platform in
      elim (Option-cases (get_elem? s.redis_pool cur)) [
        | inl e ↦
            ap forget_search (scan_lost t n start cur s w e)
            ∙ sym (
                Steps.scan_lost p n start cur (forget s) w
                  (get_elem?-forget_none s.redis_pool cur e))
        | inr (y, e) ↦
            let f = get_elem?-forget_some s.redis_pool cur y e in
            let (b, u, v) = visit t s cur y w in
            let same = sym (visit-forget s cur y w) in
            elim (Bool-cases b) [
              | inl g ↦
                  let left : visit t s cur y w ≡ (true, u, v) = ap (λ c. (c, u, v)) g in
                  ap forget_search (scan_taken t n start cur s w e left)
                  ∙ sym
                      (Steps.scan_taken p n start cur (forget s) w f (same ∙ ap forget_visit left))
              | inr g ↦
                  let left : visit t s cur y w ≡ (false, u, v) = ap (λ c. (c, u, v)) g in
                  let skip : Acquire.visit p (forget s) cur y.sock w ≡ skipped (forget u) v =
                    same ∙ ap forget_visit left in
                  let next = following-forget u cur in
                  elim (eq_cases (following u cur) start) [
                    | inl q ↦
                        ap forget_search (scan_end t n start cur s w e left q)
                        ∙ sym (Steps.scan_end p n start cur (forget s) w f skip (next ∙ q))
                    | inr q ↦
                        ap forget_search (scan_on t n start cur s w e left q)
                        ∙ scan-forget n start (following u cur) u v
                        ∙ ap (λ c. Acquire.scan p n start c (forget u) v) (sym next)
                        ∙ sym (
                            Steps.scan_on p n start cur (forget s) w f skip (λ r. q (sym next ∙ r)))
                  ]
            ]
      ]

  pub get_socket-forget :
      (s : ErrInstance) (w : W)
      → forget_search (redis_get_socket t s w) ≡ Acquire.redis_get_socket t.platform (forget s) w
  get_socket-forget s w =
      let p = t.platform in
      let same = start_of-forget s in
      elim (Option-cases (start_from s.last_used s.redis_pool)) [
        | inl e ↦
            ap forget_search (get_null t s w e) ∙ sym (Results.get_null p (forget s) w (same ∙ e))
        | inr (start, e) ↦
            ap forget_search (get_scan t s w e)
            ∙ scan-forget (length s.redis_pool) start start s w
            ∙ ap (λ n. Acquire.scan p n start start (forget s) w) (sym (length-forget s.redis_pool))
            ∙ sym (Results.get_scan p (forget s) w (same ∙ e))
      ]

  abbrev pub forget_pair : ErrInstance × W → Instance × W
  forget_pair (s, w) = (forget s, w)

  pub release-forget :
      (s : ErrInstance) (o : Option ℕ) (w : W)
      → forget_pair (redis_release_socket t s o w)
        ≡ Acquire.redis_release_socket t.platform (forget s) o w
  unfolding redis_release_socket Acquire.redis_release_socket
  release-forget s none w = refl
  release-forget s (some i) w = elim (Option-cases (get_elem? s.redis_pool i)) [
    | inl e ↦
        ap forget_pair (release_lost t s i w e)
        ∙ sym (
            Release.release_lost t.platform (forget s) i w (get_elem?-forget_none s.redis_pool i e))
    | inr (y, e) ↦
        ap forget_pair (release_at t s i w y e)
        ∙ ap (λ u. (u, (t.platform.mutex_unlock y.sock.id w).1))
            (forget-store s i (with_sock y (record y.sock { inuse = false })))
        ∙ sym (
            Release.release_some t.platform (forget s) i w
              (get_elem?-forget_some s.redis_pool i y e))
  ]
