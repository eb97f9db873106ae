-- ===== src/Provision/Fleet/Landing.antt =====
-- `uploadISO` behind the mutex, and the orders of one image on one node.
use omni_infra_provider_prox.Base.{
  refl, arith, subst, ap, sym, ◌∙◌, ℕ, ◌≤◌, String, ◌^^◌, ◌≡◌, Option-cases, ◌||◌, ◌∷◌, false, some,
  inl, inr, ◌=ₜ◌, Map, lookup, put, delete, lookup-put, lookup-delete, Bool-cases, eq_iff,
  text_eq_refl,
}
use omni_infra_provider_prox.Errors.{Error, Result, ok, err, Result-cases}
use omni_infra_provider_prox.Api.{Client, node, storage_iso, iso, download_url, task_ping}
use omni_infra_provider_prox.Exec.{World, modify, attempt, call, ◌>>=◌}
use omni_infra_provider_prox.Exec.Frames.{Shared, Keeps}
use omni_infra_provider_prox.Exec.Triples.{Answers}
use omni_infra_provider_prox.Provision.Steps.{forget_download, start_download, after_iso}
use omni_infra_provider_prox.Provision.Steps.Sharing.{waits, starts, refused, starts_anew}
use omni_infra_provider_prox.Provision.Steps.Replacing.{pinged, restarts}
use omni_infra_provider_prox.Provision.Run.{counting}
use omni_infra_provider_prox.Provision.Run.Landing.{landing-Keeps}
use omni_infra_provider_prox.Provision.Fleet.Steady.{
  image, is_download, IsSteady, IsPending, IsPending-kept, Once, Once-IsStable, call-Once,
}

module _ {S : Type 0} {client : Client S} {changes : S → S → Type 0} {on0 name0 : String}
    (steady : IsSteady client changes on0 name0) where
  -- Another image: its entry of the table is another one.
  module _ (on storage name url : String) (other : (image on name =ₜ image on0 name0) ≡ false) where
    abbrev this_key : String
    this_key = image on0 name0

    forgets :
        (s : S × ℕ) (t : String) (l : Map String)
        → Once steady s t l
        → Once steady s t (delete (image on name) l)
    forgets s t l (few, inl none_yet) = (few, inl none_yet)
    forgets s t l (few, inr (inl (upid, there, live))) =
        (few, inr (inl (upid, lookup-delete (image on name) this_key l ∙ rw other there, live)))
    forgets s t l (few, inr (inr has)) = (few, inr (inr has))

    records :
        (s : S × ℕ) (t : String) (l : Map String) (new : String)
        → Once steady s t l
        → Once steady s t (put (image on name) new l)
    records s t l new (few, inl none_yet) = (few, inl none_yet)
    records s t l new (few, inr (inl (upid, there, live))) =
        (few, inr (inl (upid, lookup-put (image on name) this_key new l ∙ rw other there, live)))
    records s t l new (few, inr (inr has)) = (few, inr (inr has))

    other-Once : Keeps (Shared (Once steady)) (
        attempt (call (counting (is_download this_key) client) (iso on storage name))
        >>= after_iso (counting (is_download this_key) client) (image on name) on storage name url)
    other-Once =
        landing-Keeps (counting (is_download this_key) client) (Once steady) (Once-IsStable steady)
          on storage name url (call-Once steady (download_url on storage "iso" name url) other)
          forgets records

module _ {S : Type 0} {client : Client S} {changes : S → S → Type 0} {on name : String}
    (steady : IsSteady client changes on name) (url : String) where
  -- This image.
  abbrev storage : String
  storage = steady.storage

  abbrev key : String
  key = image on name

  abbrev counter : Client (S × ℕ)
  counter = counting (is_download key) client

  -- Behind the listing of the image.
  abbrev landed : Result String → World (S × ℕ) → World (S × ℕ)
  landed r v = (after_iso counter key on storage name url r v).1

  found-Once :
      (volume : String) (v : World (S × ℕ))
      → v.server.1 ≤ 1
      → steady.Has v.server.0
      → Shared (Once steady) (landed (ok volume) v)
  unfolding after_iso forget_download modify
  found-Once volume v few has = (few, inr (inr has))

  pending-Once :
      (e : Error) (v : World (S × ℕ))
      → v.server.1 ≤ 1
      → IsPending steady v.server.0 v.pending_iso_downloads
      → Shared (Once steady) (landed (err e) v)
  pending-Once e v few (upid, there, live) =
      let (t, answer, alive) = steady.live_answer v.server.0 upid live in
      subst (λ o. Shared (Once steady) o.1)
        (sym (waits counter key on storage name url v upid t e there answer alive))
        (few, inr (inl (upid, there, steady.live_kept (task_ping upid) v.server.0 upid live)))

  started-Once :
      (v : World (S × ℕ))
      → v.server.1 ≡ 0
      → Shared (Once steady) (start_download counter key on storage name url v).1
  started-Once v none_yet =
      elim (Result-cases (client (download_url on storage "iso" name url) v.server.0).0) [
        | inl (upid, answer) ↦
            subst (λ o. Shared (Once steady) o.1)
              (sym (starts counter key on storage name url v upid answer))
              (
                rw (answer, text_eq_refl (image on name)) (omega arith),
                inr (
                    inl (
                      upid,
                      lookup-put key key upid v.pending_iso_downloads ∙ rw (text_eq_refl key) refl,
                      steady.live_accepted v.server.0 url upid answer,
                    )),
              )
        | inr (e, answer) ↦
            let same : (start_download counter key on storage name url v).1.server.1 ≡ v.server.1 =
              ap (λ o. o.1.server.1) (refused counter key on storage name url v e answer)
              ∙ rw (answer, text_eq_refl (image on name)) refl in
            (omega arith, inl (same ∙ none_yet))
      ]

  tracked-Once :
      (e : Error) (v : World (S × ℕ)) (existing : String)
      → v.server.1 ≡ 0
      → lookup key v.pending_iso_downloads ≡ some existing
      → Shared (Once steady) (landed (err e) v)
  tracked-Once e v existing none_yet there =
      let anew = started-Once (pinged counter key on storage name url v existing) none_yet in
      let restart = restarts counter key on storage name url v existing e in
      elim (Result-cases (client (task_ping existing) v.server.0).0) [
        | inl (t, answer) ↦ elim (Bool-cases (t.is_running || t.is_successful)) [
          | inl alive ↦
              subst (λ o. Shared (Once steady) o.1)
                (sym (waits counter key on storage name url v existing t e there answer alive))
                (omega arith, inl none_yet)
          | inr dead ↦
              subst (λ o. Shared (Once steady) o.1) (sym (restart (ok t) there answer dead)) anew
        ]
        | inr (f, answer) ↦
            subst (λ o. Shared (Once steady) o.1) (sym (restart (err f) there answer tt)) anew
      ]

  absent-Once :
      (e : Error) (v : World (S × ℕ)) → v.server.1 ≡ 0 → Shared (Once steady) (landed (err e) v)
  absent-Once e v none_yet = elim (Option-cases (lookup key v.pending_iso_downloads)) [
    | inl missing ↦
        subst (λ o. Shared (Once steady) o.1)
          (sym (starts_anew counter key on storage name url v e missing)) (started-Once v none_yet)
    | inr (existing, there) ↦ tracked-Once e v existing none_yet there
  ]

  -- The world behind the listing of the image.
  abbrev asked : World (S × ℕ) → World (S × ℕ)
  asked w = record w {
    server = (counter (iso on storage name) w.server).1;
    log = iso on storage name ∷ w.log;
  }

  listed :
      (w : World (S × ℕ)) (r : Result String)
      → (client (iso on storage name) w.server.0).0 ≡ r
      → Shared (Once steady) w
      → Shared (Once steady) (landed r (asked w))
  listed w (ok volume) answer (few, h) =
      found-Once volume (asked w) few (steady.has_listed w.server.0 volume answer)
  listed w (err e) answer (few, inl none_yet) = absent-Once e (asked w) none_yet
  listed w (err e) answer (few, inr (inl pending)) =
      pending-Once e (asked w) few
        (IsPending-kept steady (iso on storage name) w.server.0 w.pending_iso_downloads pending)
  listed w (err e) answer (few, inr (inr has)) =
      let (volume, there) = steady.has_answer w.server.0 has in
      absurd (let clash = sym there ∙ answer in ground arith)

  this-Once :
      Keeps
        (Shared (Once steady))
        (attempt (call counter (iso on storage name)) >>= after_iso counter key on storage name url)
  unfolding ◌>>=◌ call
  this-Once = record { at = λ w h. listed w (client (iso on storage name) w.server.0).0 refl h }

module _ {S : Type 0} {client : Client S} {changes : S → S → Type 0} {on0 name0 : String}
    (steady : IsSteady client changes on0 name0) where
  abbrev counts : Client (S × ℕ)
  counts = counting (is_download (image on0 name0)) client

  abbrev Lands : (on storage name url : String) → Type 0
  Lands on storage name url = Keeps (Shared (Once steady)) (
      attempt (call counts (iso on storage name))
      >>= after_iso counts (on ^^ ("-" ^^ name)) on storage name url)

  same-Lands :
      (on storage name url : String)
      → (on ≡ on0) × (name ≡ name0)
      → Answers counts (storage_iso on) (ok storage)
      → Lands on storage name url
  same-Lands on storage name url (here, named) stored =
      let at_storage : (client (storage_iso on0) stored.0.0).0 ≡ ok storage =
        subst (λ n. (client (storage_iso n) stored.0.0).0 ≡ ok storage) here stored.1 in
      subst (λ n. Lands n storage name url) (sym here)
        (subst (λ n. Lands on0 storage n url) (sym named)
          (subst (λ st. Lands on0 st name0 url) (sym (steady.stored stored.0.0 storage at_storage))
            (this-Once steady url)))

  -- For any image, the one behind the mutex or another.
  pub landing-Once :
      (asked_for on storage name url : String)
      → Answers counts (node asked_for) (ok on)
      → Answers counts (storage_iso on) (ok storage)
      → Lands on storage name url
  landing-Once asked_for on storage name url named stored =
      elim (Bool-cases (image on name =ₜ image on0 name0)) [
        | inr other ↦ other-Once steady on storage name url other
        | inl same ↦
            same-Lands on storage name url
              (steady.apart named.0.0 asked_for on name named.1
                ((eq_iff (image on name) (image on0 name0)).0 same))
              stored
      ]
