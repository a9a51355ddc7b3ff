-- ===== src/Metadata/Keys.antt =====
-- metadata/etcd.go: the keys under which resources and jobs stand in etcd.
pub mod TypeNames
pub mod Prefixes
use featureform.Common.{◌++◌}
use featureform.Text.{Text, bytes}
use featureform.Metadata.Types.{ResourceId, type_name}

-- `createKey`: `fmt.Sprintf("%s__%s__%s", id.Type, id.Name, id.Variant)`
unfoldable pub create_key : ResourceId → Text
create_key id = type_name id.type ++ (bytes "__" ++ (id.name ++ (bytes "__" ++ id.variant)))

-- `GetJobKey`
unfoldable pub get_job_key : ResourceId → Text
unfolding create_key
get_job_key id = bytes "JOB__" ++ create_key id

-- `GetScheduleJobKey`
unfoldable pub get_schedule_job_key : ResourceId → Text
unfolding create_key
get_schedule_job_key id = bytes "SCHEDULEJOB__" ++ create_key id
