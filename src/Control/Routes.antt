-- ===== src/Control/Routes.antt =====
-- mountHTTP of cmd/control/control_http.go: the handler of a request with a clean path. http.ServeMux
-- redirects a request first whose path has an empty segment, `.` or `..`; the theorems are about ids
-- that are plain segments.
pub mod Laws
use mc_prototype.Base.{String, Bool, ◌&&◌, ◌||◌, str_eq, if◌then◌else◌}
use mc_prototype.Control.World.{Response, reply, ok_true}
use mc_prototype.Text.{has_prefix, has_suffix}

pub data Handler : Type 0 where
  health list_tasks create_task method_not_allowed try_claim heartbeat release logs get_task stats :
      Handler
  manifest finish debug_lease force_requeue not_found : Handler

unfoldable pub health_handler : Response
health_handler = reply 200 ok_true

-- The handler behind /api/tasks/.
unfoldable pub task_route : String → String → Handler
task_route method path =
    if str_eq method "POST" && has_suffix path "/try-claim"
    then try_claim
    else if str_eq method "POST" && has_suffix path "/heartbeat"
    then heartbeat
    else if str_eq method "POST" && has_suffix path "/release"
    then release
    else if has_suffix path "/logs"
    then logs
    else get_task

-- The handler behind /jobs/.
unfoldable pub job_route : String → Handler
job_route path =
    if has_suffix path "/manifest"
    then manifest
    else if has_suffix path "/finish"
    then finish
    else not_found

unfoldable pub route : String → String → Handler
unfolding task_route job_route
route method path =
    if str_eq path "/api/health"
    then health
    else if str_eq path "/api/tasks"
    then (if str_eq method "GET"
        then list_tasks
        else if str_eq method "POST"
        then create_task
        else method_not_allowed)
    else if has_prefix path "/api/tasks/"
    then task_route method path
    else if str_eq path "/api/stats/tasks"
    then stats
    else if has_prefix path "/jobs/"
    then job_route path
    else if has_prefix path "/api/jobs/"
    then (if has_suffix path "/finish" then finish else not_found)
    else if has_prefix path "/internal/tasks/"
    then debug_lease
    else if has_prefix path "/internal/requeue/"
    then force_requeue
    else not_found
