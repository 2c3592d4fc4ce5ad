-- ===== src/Client/Sessions/Cleanup.antt =====
-- What `cleanup_expired_sessions` removes and keeps.
use uomi_node.Prelude.{
  ℕ, Bool, true, false, ◌||◌, Option, none, ◌≡◌, refl, subst, ◌∙◌, ap, List, [], ◌∷◌, arith, ◌==◌,
  ==_iff, if◌then◌else◌,
}
use uomi_node.Prelude.Key.{nat_key}
use uomi_node.Prelude.Lists.{contains, Distinct}
use uomi_node.Prelude.Map.{Map, lookup, keys, lookup-remove, contains-keys}
use uomi_node.Client.{SessionId, Manager}
use uomi_node.Client.Sessions.{
  is_older, is_session_timed_out, expired_sessions, forget_session, forget_sessions,
  cleanup_expired_sessions,
}

-- A session is listed where its timestamp is older than the timeout.
contains-expired_sessions :
    (now : ℕ) (timestamps : Map SessionId ℕ) (q : SessionId)
    → Distinct (keys timestamps)
    → contains (expired_sessions now timestamps) q ≡ is_older now (lookup q timestamps)
unfolding expired_sessions lookup
contains-expired_sessions now [] q d = refl
contains-expired_sessions now ((p, timestamp) ∷ rest) q d =
    ground (arith, contains-expired_sessions now rest q d.1, contains-keys rest p, d.0, ==_iff p q)

-- What is kept of an entry that was there, `gone` if the session is removed.
abbrev pub unless {ℓ} : {A : Type ℓ} → Bool → Option A → Option A
unless gone entry = if gone then none else entry

-- The entries of a session in the six maps after a removal, `gone` if it is removed.
pub record IsCleaned (gone : Bool) (q : SessionId) (s s' : Manager) : Type 0 where
  pub session : lookup q s'.sessions_data ≡ unless gone (lookup q s.sessions_data)
  pub participants :
      lookup q s'.sessions_participants ≡ unless gone (lookup q s.sessions_participants)
  pub dkg_state : lookup q s'.dkg_session_states ≡ unless gone (lookup q s.dkg_session_states)
  pub signing_state :
      lookup q s'.signing_session_states ≡ unless gone (lookup q s.signing_session_states)
  pub timestamp : lookup q s'.session_timestamps ≡ unless gone (lookup q s.session_timestamps)
  pub messages : lookup q s'.buffer ≡ unless gone (lookup q s.buffer)
  pub secrets : (s'.round1_secret ≡ s.round1_secret) × (s'.round2_secret ≡ s.round2_secret)
  pub stored_keys : s'.keys ≡ s.keys

forget_session-IsCleaned :
    (p q : SessionId) (s : Manager) → IsCleaned (p == q) q s (forget_session p s)
unfolding forget_session
forget_session-IsCleaned p q s = record {
  session = lookup-remove p q s.sessions_data;
  participants = lookup-remove p q s.sessions_participants;
  dkg_state = lookup-remove p q s.dkg_session_states;
  signing_state = lookup-remove p q s.signing_session_states;
  timestamp = lookup-remove p q s.session_timestamps;
  messages = lookup-remove p q s.buffer;
  secrets = (refl, refl);
  stored_keys = refl;
}

unless_twice :
    {A : Type 0} (a b : Bool) (x y z : Option A)
    → y ≡ unless a x
    → z ≡ unless b y
    → z ≡ unless (a || b) x
unless_twice true true x y z e f = f
unless_twice true false x y z e f = f ∙ e
unless_twice false b x y z e f = f ∙ ap (unless b) e

IsCleaned-twice :
    (a b : Bool) (q : SessionId) (s u t : Manager)
    → IsCleaned a q s u
    → IsCleaned b q u t
    → IsCleaned (a || b) q s t
IsCleaned-twice a b q s u t i j = record {
  session = unless_twice a b _ _ _ i.session j.session;
  participants = unless_twice a b _ _ _ i.participants j.participants;
  dkg_state = unless_twice a b _ _ _ i.dkg_state j.dkg_state;
  signing_state = unless_twice a b _ _ _ i.signing_state j.signing_state;
  timestamp = unless_twice a b _ _ _ i.timestamp j.timestamp;
  messages = unless_twice a b _ _ _ i.messages j.messages;
  secrets = (j.secrets.0 ∙ i.secrets.0, j.secrets.1 ∙ i.secrets.1);
  stored_keys = j.stored_keys ∙ i.stored_keys;
}

forget_sessions-IsCleaned :
    (ps : List SessionId) (q : SessionId) (s : Manager)
    → IsCleaned (contains ps q) q s (forget_sessions ps s)
unfolding forget_sessions
forget_sessions-IsCleaned [] q s = record {
  session = refl;
  participants = refl;
  dkg_state = refl;
  signing_state = refl;
  timestamp = refl;
  messages = refl;
  secrets = (refl, refl);
  stored_keys = refl;
}
forget_sessions-IsCleaned (p ∷ ps) q s =
    IsCleaned-twice (p == q) (contains ps q) q s (forget_session p s) _
      (forget_session-IsCleaned p q s) (forget_sessions-IsCleaned ps q (forget_session p s))

-- Where no session has two timestamps, `cleanup_expired_sessions` removes a session that has timed out
-- from all six maps, keeps every entry of the others, and changes no secret and no key.
pub cleanup_expired_sessions-IsCleaned :
    (now : ℕ) (s : Manager) (q : SessionId)
    → Distinct (keys s.session_timestamps)
    → IsCleaned (is_session_timed_out now q s) q s (cleanup_expired_sessions now s)
unfolding cleanup_expired_sessions is_session_timed_out
cleanup_expired_sessions-IsCleaned now s q d =
    subst
      (λ (b : Bool).
        IsCleaned b q s (forget_sessions (expired_sessions now s.session_timestamps) s))
      (contains-expired_sessions now s.session_timestamps q d)
      (forget_sessions-IsCleaned (expired_sessions now s.session_timestamps) q s)
