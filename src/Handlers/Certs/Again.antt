-- ===== src/Handlers/Certs/Again.antt =====
-- A certificate that was asked to be verified again, and its inspector.
use lucairn_enterprise_deplo.Base.{Bool, true, false, Option, none, some, Result, ok, err, ◌==◌}
use lucairn_enterprise_deplo.Auth.Session.{Session}
use lucairn_enterprise_deplo.Web.{Response, redirect, error, not_found, page}
use lucairn_enterprise_deplo.Witness.Client.{VerifyError}
use lucairn_enterprise_deplo.Witness.Client.Report.{VerifyResult}
use lucairn_enterprise_deplo.Handlers.Certs.{CertPage, not_configured, inspector}

-- The redirect after a change, or the inspector's page.
abbrev done : Response CertPage → Bool
done (redirect status location) = status == 303
done (error status text) = false
done not_found = false
done (page status not_configured) = false
done (page status (inspector p)) = true

abbrev pub value : Result VerifyError VerifyResult → Option VerifyResult
value (ok result) = some result
value (err e) = none
