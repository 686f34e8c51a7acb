-- ===== src/Process/Tests.antt =====
-- A process that reaches the server, but finds no stream to consume.
use eq_site_cms_vk_service.Shared.{none, some, []}
use eq_site_cms_vk_service.Text.{Text, codes}
use eq_site_cms_vk_service.Process.Script.{Answers}
use eq_site_cms_vk_service.Process.Lifespan.{Call, setup, Failure, os_error, lifespan}
use eq_site_cms_vk_service.Process.Closed.{Closed, lifespan_outcome}

abbrev no_stream : Answers Call Failure
no_stream calls setup = some os_error
no_stream calls _ = none

abbrev same_case : Text → Text
same_case s = s

lifespan_outcome_example : Closed no_stream (lifespan same_case (codes "production") no_stream [])
lifespan_outcome_example = lifespan_outcome no_stream same_case (codes "production")
