-- ===== src/Command/Privileges.antt =====
-- What the command prints of the privileges that its role lacks.
use pglockr.Prelude.{
  ◌≡◌, refl, Bool, true, false, not, ◌&&◌, ◌||◌, none, some, ok, err, Text, if◌then◌else◌,
}
use pglockr.Pg.{capabilities}
use pglockr.Setup.{remediation}
use pglockr.Command.{preflight}

-- Whatever the role is: nothing is printed if it is a superuser or a member of both roles, nor if
-- its privileges cannot be inspected. Else the statements are printed that grant what is missing,
-- and nothing that the role has.
pub preflight-capabilities :
    (role : Text) (is_superuser reads_stats signals : Bool) (e : Text)
    → (preflight (capabilities (ok (role, is_superuser, reads_stats, signals))) ≡ (
        if is_superuser || reads_stats && signals
        then none
        else some (remediation role (not reads_stats) (not signals))))
      × (preflight (capabilities (err e)) ≡ none)
unfolding preflight capabilities
preflight-capabilities role true reads_stats signals e = (refl, refl)
preflight-capabilities role false true signals e = (refl, refl)
preflight-capabilities role false false signals e = (refl, refl)
